-- ===== src/Utils/FileDescriptor/Tests.antt =====
-- utils/src/file_descriptor.cpp: short runs.
use cosec_examples.Prelude.{ℕ, ◌≤◌, ◌<◌, ◌≡◌, refl, [], ◌∷◌, ◌++◌, length, arith}
use cosec_examples.Utils.FileDescriptor.{
  Bytes, accepted, received, read_would_block, returned, write_as_chunks, read_chunks,
  read_as_chunks,
}
use cosec_examples.Utils.FileDescriptor.Chunks.{accepts, done_with, write_as_chunks-all}
use cosec_examples.Utils.FileDescriptor.Received.{arrived, read_as_chunks-arrived}

write_as_chunks-all_example :
    write_as_chunks (accepted 2 ∷ accepted 1 ∷ []) (4 ∷ 5 ∷ 6 ∷ []) ≡ returned 3 (4 ∷ 5 ∷ 6 ∷ [])
write_as_chunks-all_example =
    write_as_chunks-all (accepted 2 ∷ accepted 1 ∷ []) (4 ∷ 5 ∷ 6 ∷ [])
      (accepts (omega arith) (omega arith) (accepts (omega arith) (omega arith) done_with))

read_as_chunks-arrived_example :
    (left : Bytes) × (2 ≡ length {A = ℕ} (7 ∷ 8 ∷ []))
    × (2 ≤ 4)
    × ((7 ∷ 8 ∷ []) ++ left ≡ arrived (received (7 ∷ 8 ∷ []) ∷ read_would_block ∷ []))
    × (2 < 4 → left ≡ [])
unfolding read_as_chunks read_chunks
read_as_chunks-arrived_example =
    read_as_chunks-arrived (received (7 ∷ 8 ∷ []) ∷ read_would_block ∷ []) 4 {d = 2}
      {w = 7 ∷ 8 ∷ []} refl
