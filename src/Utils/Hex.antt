-- ===== src/Utils/Hex.antt =====
-- utils/src/hex.cpp: bytes as hexadecimal text, in rows of so many columns.
pub mod Text
mod Tests
use cosec_examples.Prelude.{
  ℕ, suc, ◌+◌, ◌/◌, ◌%◌, Bool, List, [], ◌∷◌, ◌++◌, ltb, ◌==◌, if◌then◌else◌,
}

abbrev pub Text : Type 0
Text = List ℕ

unfoldable pub digit : ℕ → ℕ
digit n = if ltb n 10 then 48 + n else 87 + n

-- std::setw(2) and a byte, with std::hex and the fill '0'.
unfoldable pub put_byte : ℕ → Text
put_byte b = digit (b / 16) ∷ (digit (b % 16) ∷ [])

-- j?' ':'\n'
unfoldable pub separator : ℕ → ℕ
separator j = if j == 0 then 10 else 32

-- The loop, over the bytes from i on.
unfoldable pub put_bytes : ℕ → ℕ → List ℕ → Text
put_bytes columns j [] = []
put_bytes columns j (b ∷ bs) =
    let j0 = if j == columns then 0 else j in
    separator j0 ∷ (put_byte b ++ put_bytes columns (suc j0) bs)

unfoldable pub put_hex : ℕ → List ℕ → Text
put_hex columns [] = []
put_hex columns (b ∷ bs) = put_byte b ++ put_bytes columns 1 bs
