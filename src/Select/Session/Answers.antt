-- ===== src/Select/Session/Answers.antt =====
-- select/src/main.cpp: what the session owes for the text it receives, independently of how the text is
-- cut into reads.
use cosec_examples.Prelude.{
  take-length, suc, ◌-◌, ◌≡◌, refl, ◌∙◌, ap, Option, none, some, List, [], ◌∷◌, ◌++◌, length,
  append_assoc, arith, take,
}
use cosec_examples.Select.ReadUntil.{Bytes, index_of}
use cosec_examples.Select.Session.{newline, BigInt, c_string, read_buffered_number, reply}
use cosec_examples.Select.Session.Lines.{lines, lines-first}

module _ {N : Type 0} (big : BigInt N) where
  unfoldable pub number : Bytes → Option N
  number line = big.parse (c_string line)

  -- The products of the lines taken two by two, up to the first line that is no number.
  unfoldable pub answers : List Bytes → Bytes
  answers [] = []
  answers (x ∷ []) = []
  answers (x ∷ y ∷ ls) =
      let later = answers ls in
      elim (number x) [
        | none ↦ []
        | some a ↦ elim (number y) [ none ↦ [] | some b ↦ reply big a b ++ later ]
      ]

  -- The same when the first number of a pair is there already.
  unfoldable pub answers_after : N → List Bytes → Bytes
  answers_after a [] = []
  answers_after a (y ∷ ls) = elim (number y) [ none ↦ [] | some b ↦ reply big a b ++ answers ls ]

  pub answers-none : (x : Bytes) (ls : List Bytes) → number x ≡ none → answers (x ∷ ls) ≡ []
  unfolding answers
  answers-none x [] h = refl
  answers-none x (y ∷ ls) h = ground (arith, h)

  pub answers-some :
      (x : Bytes) (a : N) (ls : List Bytes)
      → number x ≡ some a
      → answers (x ∷ ls) ≡ answers_after a ls
  unfolding answers answers_after
  answers-some x a [] h = refl
  answers-some x a (y ∷ ls) h = ground (arith, h)

  pub answers_after-none :
      (a : N) (y : Bytes) (ls : List Bytes) → number y ≡ none → answers_after a (y ∷ ls) ≡ []
  unfolding answers_after
  answers_after-none a y ls h = ground (arith, h)

  pub answers_after-some :
      (a b : N) (y : Bytes) (ls : List Bytes)
      → number y ≡ some b
      → answers_after a (y ∷ ls) ≡ reply big a b ++ answers ls
  unfolding answers_after
  answers_after-some a b y ls h = ground (arith, h)

  -- The number that is read is the first line.
  pub read_buffered_number-line :
      (line rest : Bytes)
      → read_buffered_number big (suc (length line)) (line ++ newline ∷ rest) ≡ number line
  unfolding read_buffered_number number
  read_buffered_number-line line rest =
      ap (λ n. big.parse (c_string (take n (line ++ newline ∷ rest)))) {x = suc (length line) - 1}
        (omega arith)
      ∙ ap (λ l. big.parse (c_string l)) (take-length line (newline ∷ rest))

-- The lines of a buffer whose first line is known, whatever comes after.
pub lines-split :
    (bs line rest t : Bytes)
    → bs ≡ line ++ newline ∷ rest
    → index_of newline line ≡ none
    → lines (bs ++ t) ≡ line ∷ lines (rest ++ t)
lines-split bs line rest t h clean =
    rw (h, append_assoc line (newline ∷ rest) t) (lines-first line (rest ++ t) clean)
