-- ===== src/Utils/Hex/Tests.antt =====
-- utils/src/hex.cpp: three bytes in two columns.
use cosec_examples.Prelude.{◌≡◌, refl, flatten, [], ◌∷◌, arith}
use cosec_examples.Utils.Hex.{put_hex}
use cosec_examples.Utils.Hex.Text.{rows_text, last_row, full_row, put_hex-Rows}

put_hex-Rows_example :
    put_hex 2 (flatten ((0 ∷ 255 ∷ []) ∷ (16 ∷ []) ∷ []))
    ≡ rows_text ((0 ∷ 255 ∷ []) ∷ (16 ∷ []) ∷ [])
put_hex-Rows_example =
    put_hex-Rows 2 (0 ∷ 255 ∷ []) ((16 ∷ []) ∷ []) (omega arith)
      (full_row refl (last_row (omega arith) (omega arith)))
