-- ===== src/Select/Session/Lines.antt =====
-- select/src: the lines of what a session receives, and the first of them, as async_read_until finds it.
use cosec_examples.Prelude.{
  ℕ, suc, ◌≡◌, refl, ap, inl, inr, false, none, some, List, [], ◌∷◌, ◌++◌, ◌==◌, if◌then◌else◌,
  length, drop, arith, Option-cases, Bool-cases, ==_iff,
}
use cosec_examples.Select.ReadUntil.{Bytes, index_of}
use cosec_examples.Select.Session.{newline}

-- A byte goes in front of the first line.
unfoldable pub onto_first : ℕ → List Bytes → List Bytes
onto_first b [] = []
onto_first b (line ∷ ls) = (b ∷ line) ∷ ls

-- The complete lines of a text, without their newlines.
unfoldable pub lines : Bytes → List Bytes
lines [] = []
lines (b ∷ bs) = let later = lines bs in if b == newline then [] ∷ later else onto_first b later

pub drop-length-suc : (xs : Bytes) (d : ℕ) (ys : Bytes) → drop (suc (length xs)) (xs ++ d ∷ ys) ≡ ys
drop-length-suc [] d ys = refl
drop-length-suc (x ∷ xs) d ys = drop-length-suc xs d ys

-- The first delimiter splits the bytes.
pub record FirstLine (d : ℕ) (bs : Bytes) (p : ℕ) : Type 0 where
  pub line : Bytes
  pub rest : Bytes
  pub split : bs ≡ line ++ d ∷ rest
  pub clean : index_of d line ≡ none
  pub at : length line ≡ p

module _ (d : ℕ) where
  pub index_of-cons :
      (b : ℕ) (bs : Bytes)
      → index_of d (b ∷ bs) ≡ none
      → (index_of d bs ≡ none) × ((b == d) ≡ false)
  unfolding index_of
  index_of-cons b bs h = elim (Option-cases (index_of d bs)) [
    | inl q ↦ (q, ground (arith, h))
    | inr (p, q) ↦ absurd (ground (arith, h, q))
  ]

  pub index_of-append :
      (xs ys : Bytes) → index_of d xs ≡ none → index_of d ys ≡ none → index_of d (xs ++ ys) ≡ none
  unfolding index_of
  index_of-append [] ys h k = k
  index_of-append (x ∷ xs) ys h k =
      let (q, e) = index_of-cons x xs h in ground (arith, index_of-append xs ys q k)

  pub index_of-FirstLine : (bs : Bytes) (p : ℕ) → index_of d bs ≡ some p → FirstLine d bs p
  unfolding index_of
  index_of-FirstLine [] p h = absurd (cc)
  index_of-FirstLine (b ∷ bs) p h = elim (Bool-cases (b == d)) [
    | inl e ↦ record {
      line = [];
      rest = bs;
      split = rw ((==_iff b d).0 e);
      clean = refl;
      at = ground (arith, h, e);
    }
    | inr e ↦ elim (Option-cases (index_of d bs)) [
      | inl q ↦ absurd (ground (arith, h, e, q))
      | inr (k, q) ↦
          let f = index_of-FirstLine bs k q in
          record {
            line = b ∷ f.line;
            rest = f.rest;
            split = ap (λ r. b ∷ r) f.split;
            clean = rw (e, f.clean) refl;
            at = ground (arith, h, e, q, f.at);
          }
    ]
  ]

pub lines-none : (xs : Bytes) → index_of newline xs ≡ none → lines xs ≡ []
unfolding index_of lines onto_first
lines-none [] h = refl
lines-none (x ∷ xs) h = let (q, e) = index_of-cons newline x xs h in rw (e, lines-none xs q) refl

pub lines-first :
    (xs ys : Bytes) → index_of newline xs ≡ none → lines (xs ++ newline ∷ ys) ≡ xs ∷ lines ys
unfolding index_of lines onto_first
lines-first [] ys h = refl
lines-first (x ∷ xs) ys h =
    let (q, e) = index_of-cons newline x xs h in rw (e, lines-first xs ys q) refl
