-- ===== src/GuiProgress/FileCopier.antt =====
-- gui-progress/src/filecopier.cpp: FileCopier::copyFile, over what the file system does.
pub mod Progress
mod Tests
use cosec_examples.Prelude.{
  ℕ, zero, suc, ◌+◌, ◌*◌, ◌/◌, ◌%◌, ◌^◌, Bool, true, false, Option, none, some, List, [], ◌∷◌, ◌++◌,
  ◌==◌, ltb, if◌then◌else◌, length,
}
use mathlib.Core.Option.{map}

abbrev pub Bytes : Type 0
Bytes = List ℕ

-- What `done` is emitted with, less the system's own words.
pub data Message : Type 0 where
  open_source_failed open_destination_failed write_failed cancelled_copy read_failed success :
      Message

pub data Signal : Type 0 where
  progress_changed : ℕ → Signal
  done : Message → Signal

-- A block that sourceFile.read gives, of one byte or more: the flag after it, and whether write takes it
-- whole.
pub record Block : Type 0 where
  pub bytes : Bytes
  pub cancelled : Bool
  pub written : Bool

-- After the loop: the flag, and whether the last read failed.
pub record After : Type 0 where
  pub cancelled : Bool
  pub failed : Bool

-- What has been emitted from some point on, and the bytes of the destination.
abbrev pub Copy : Type 0
Copy = List Signal × Bytes

unfoldable pub emit : Signal → Copy → Copy
emit s r = (s ∷ r.0, r.1)

-- The message of the end of the loop.
unfoldable pub finish : After → Message
finish a = if a.cancelled then cancelled_copy else if a.failed then read_failed else success

-- if(progress!=newProgress)
unfoldable pub update : ℕ → ℕ → Copy → Copy
update progress new_progress r =
    if progress == new_progress then r else emit (progress_changed new_progress) r

-- int(...), as the 32 bits of the int.
unfoldable pub to_int : ℕ → ℕ
to_int x = x % 2 ^ 32

-- The values of a qint64 from 0 on.
abbrev pub qint64_bound : ℕ
qint64_bound = 2 ^ 63

-- The loop. The reads that are left are the blocks, then one that gives nothing or fails. Nothing when
-- 100*copied overflows.
unfoldable pub copy_blocks : ℕ → ℕ → ℕ → Bytes → List Block → After → Option Copy
copy_blocks size progress copied destination [] after = some (done (finish after) ∷ [], destination)
copy_blocks size progress copied destination (b ∷ blocks) after =
    let total = copied + length b.bytes in
    let new_progress = to_int (100 * total / size) in
    let rest = copy_blocks size new_progress total (destination ++ b.bytes) blocks after in
    if b.cancelled
    then some (done (finish after) ∷ [], destination)
    else if b.written
    then (if ltb (100 * total) qint64_bound then map (update progress new_progress) rest else none)
    else some (done write_failed ∷ [], destination)

-- Nothing also when a block is divided by a size of zero.
unfoldable pub copy_file : Bool → Bool → ℕ → List Block → After → Option Copy
copy_file false destination_opens size blocks after = some (done open_source_failed ∷ [], [])
copy_file true false size blocks after = some (done open_destination_failed ∷ [], [])
copy_file true true zero [] after = some (progress_changed 0 ∷ done (finish after) ∷ [], [])
copy_file true true zero (b ∷ blocks) after =
    if b.cancelled
    then some (progress_changed 0 ∷ done (finish after) ∷ [], [])
    else if b.written
    then none
    else some (progress_changed 0 ∷ done write_failed ∷ [], [])
copy_file true true (suc n) blocks after =
    map (emit (progress_changed 0)) (copy_blocks (suc n) 0 0 [] blocks after)
