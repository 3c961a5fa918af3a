-- ===== src/Utils/Hex/Text.antt =====
-- utils/src/hex.cpp: what the text is, and that the bytes can be read from it.
use cosec_examples.Prelude.{
  ℕ, suc, ◌+◌, ◌-◌, ◌*◌, ◌≤◌, ◌<◌, ◌≡◌, refl, sym, ◌∙◌, ap, true, false, flatten, Option, none,
  some, List, [], ◌∷◌, ◌++◌, append_assoc, length, ltb, ◌==◌, if◌then◌else◌, arith,
}
use cosec_examples.Utils.Hex.{Text, put_byte, separator, put_bytes, put_hex}

-- The bytes of a row after its first.
unfoldable pub rest_of_row : List ℕ → Text
rest_of_row [] = []
rest_of_row (b ∷ bs) = b' ' ∷ (put_byte b ++ rest_of_row bs)

unfoldable pub row_text : List ℕ → Text
row_text [] = []
row_text (b ∷ bs) = put_byte b ++ rest_of_row bs

-- Rows, each after a newline.
unfoldable pub rows_below : List (List ℕ) → Text
rows_below [] = []
rows_below (r ∷ rs) = b'\n' ∷ (row_text r ++ rows_below rs)

unfoldable pub rows_text : List (List ℕ) → Text
rows_text [] = []
rows_text (r ∷ rs) = row_text r ++ rows_below rs

-- Full rows, and a last one that is not empty.
pub data Rows (columns : ℕ) : List (List ℕ) → Type 0 where
  last_row : {r : List ℕ} → 1 ≤ length r → length r ≤ columns → Rows columns (r ∷ [])
  full_row :
      {r : List ℕ} {rs : List (List ℕ)}
      → length r ≡ columns
      → Rows columns rs
      → Rows columns (r ∷ rs)

-- In a row.
put_bytes-row :
    (columns j end : ℕ) (row rest : List ℕ)
    → 1 ≤ j
    → end ≤ columns
    → j + length row ≡ end
    → put_bytes columns j (row ++ rest) ≡ rest_of_row row ++ put_bytes columns end rest
unfolding put_bytes rest_of_row separator
put_bytes-row columns j end [] rest started fits e =
    ap (λ k. put_bytes columns k rest) {x = j} (omega (arith, e))
put_bytes-row columns j end (b ∷ bs) rest started fits e =
    let inside : (j == columns) ≡ false = ground (arith, fits, e) in
    let later : (j == 0) ≡ false = ground (arith, started) in
    rw (inside, later)
      (ap (λ t. b' ' ∷ (put_byte b ++ t))
          (put_bytes-row columns (suc j) end bs rest (omega arith) fits (omega (arith, e)))
        ∙ ap (λ t. b' ' ∷ t) (sym (append_assoc (put_byte b) (rest_of_row bs) _)))

-- After a full row.
put_bytes-newline :
    (columns b : ℕ) (bs : List ℕ)
    → put_bytes columns columns (b ∷ bs) ≡ b'\n' ∷ (put_byte b ++ put_bytes columns 1 bs)
unfolding put_bytes separator
put_bytes-newline columns b bs =
    let full : (columns == columns) ≡ true = ground arith in rw full refl

-- A row, its first byte included.
whole_row :
    (columns b : ℕ) (bs rest : List ℕ)
    → length (b ∷ bs) ≤ columns
    → put_byte b ++ put_bytes columns 1 (bs ++ rest)
      ≡ row_text (b ∷ bs) ++ put_bytes columns (length (b ∷ bs)) rest
unfolding row_text
whole_row columns b bs rest fits =
    ap (λ t. put_byte b ++ t)
      (put_bytes-row columns 1 (length (b ∷ bs)) bs rest (omega arith) fits (omega arith))
    ∙ sym (append_assoc (put_byte b) (rest_of_row bs) _)

-- The rows after a full one.
row_by_row :
    (columns : ℕ) (r : List ℕ) (rs : List (List ℕ))
    → 1 ≤ columns
    → Rows columns (r ∷ rs)
    → (put_hex columns (flatten (r ∷ rs)) ≡ rows_text (r ∷ rs))
      × (put_bytes columns columns (flatten (r ∷ rs)) ≡ rows_below (r ∷ rs))
unfolding put_hex put_bytes flatten rows_below rows_text
row_by_row columns [] rs some_column (last_row full fits) = absurd (omega (arith, full))
row_by_row columns (b ∷ bs) [] some_column (last_row full fits) =
    let row = whole_row columns b bs [] fits in
    (row, put_bytes-newline columns b (bs ++ []) ∙ ap (λ t. b'\n' ∷ t) row)
row_by_row columns [] rs some_column (full_row full rows) =
    absurd (omega (arith, full, some_column))
row_by_row columns (b ∷ bs) [] some_column (full_row full rows) = elim rows [ ]
row_by_row columns (b ∷ bs) (r ∷ rs) some_column (full_row full rows) =
    let row =
      whole_row columns b bs (flatten (r ∷ rs)) (omega (arith, full))
      ∙ ap (λ t. row_text (b ∷ bs) ++ t)
          (ap (λ n. put_bytes columns n (flatten (r ∷ rs))) full
            ∙ (row_by_row columns r rs some_column rows).1) in
    (row, put_bytes-newline columns b (bs ++ flatten (r ∷ rs)) ∙ ap (λ t. b'\n' ∷ t) row)

-- The bytes of a list of rows, all but the last full and the last not empty, become the texts of the rows, with a
-- newline between two of them, in which a space stands between two bytes.
pub put_hex-Rows :
    (columns : ℕ) (r : List ℕ) (rs : List (List ℕ))
    → 1 ≤ columns
    → Rows columns (r ∷ rs)
    → put_hex columns (flatten (r ∷ rs)) ≡ rows_text (r ∷ rs)
put_hex-Rows columns r rs some_column rows = (row_by_row columns r rs some_column rows).0

-- The value of a hexadecimal digit.
abbrev pub value : ℕ → ℕ
value c = if ltb c 58 then c - 48 else c - 87

-- Two digits a byte, and a character between two bytes.
unfoldable pub read_hex : Text → Option (List ℕ)
read_hex [] = some []
read_hex (c ∷ []) = none
read_hex (c ∷ d ∷ []) = some ((value c * 16 + value d) ∷ [])
read_hex (c ∷ d ∷ s ∷ text) = elim (read_hex text) [
  | none ↦ none
  | some bs ↦ some ((value c * 16 + value d) ∷ bs)
]

pub data AllBytes : List ℕ → Type 0 where
  no_byte : AllBytes []
  one_byte : {b : ℕ} {bs : List ℕ} → b < 256 → AllBytes bs → AllBytes (b ∷ bs)
