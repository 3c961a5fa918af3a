-- ===== src/GuiProgress/FileCopier/Tests.antt =====
-- Copies of a file of four bytes in two blocks.
use cosec_examples.Prelude.{◌≤◌, ◌≡◌, refl, true, false, none, some, List, [], ◌∷◌, length, arith}
use cosec_examples.GuiProgress.FileCopier.{
  progress_changed, done, success, Block, After, Copy, emit, finish, update, to_int, copy_blocks,
  copy_file,
}
use cosec_examples.GuiProgress.FileCopier.Progress.{
  contents, Sticky, unset, stays, Copied, copy_file-Copied,
}

abbrev blocks : List Block
blocks =
    record { bytes = 1 ∷ []; cancelled = false; written = true }
    ∷ record { bytes = 2 ∷ 3 ∷ 4 ∷ []; cancelled = false; written = true }
    ∷ []

abbrev whole : After
whole = record { cancelled = false; failed = false }

-- The signals and the destination.
copied :
    copy_file true true 4 blocks whole
    ≡ some (
      progress_changed 0 ∷ progress_changed 25 ∷ progress_changed 100 ∷ done success ∷ [],
      1 ∷ 2 ∷ 3 ∷ 4 ∷ [],
    )
unfolding copy_file copy_blocks update emit to_int finish
copied = refl

-- A file whose size is reported as zero, though it has bytes.
divides_by_zero : copy_file true true 0 blocks whole ≡ none
unfolding copy_file
divides_by_zero = refl

sticky : Sticky whole blocks
sticky = stays (λ e. absurd (cc)) (stays (λ e. absurd (cc)) unset)

four_bytes : length (contents blocks) ≤ 4
unfolding contents
four_bytes = omega arith

copy_file-Copied_example :
    (r : Copy) × (copy_file true true 4 blocks whole ≡ some (emit (progress_changed 0) r))
    × Copied 0 blocks whole (contents blocks) (some r)
copy_file-Copied_example = copy_file-Copied 3 blocks whole (omega arith) sticky four_bytes
