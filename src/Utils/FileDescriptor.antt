-- ===== src/Utils/FileDescriptor.antt =====
-- utils/src/file_descriptor.cpp: reads and writes in one piece and in chunks, over the results of the
-- system calls, the first result first.
pub mod Chunks
pub mod Received
mod Tests
use cosec_examples.Prelude.{
  ℕ, zero, suc, ◌+◌, ◌-◌, Bool, true, false, List, [], ◌∷◌, ◌++◌, ltb, ◌==◌, if◌then◌else◌, length,
  take, drop,
}

abbrev pub Bytes : Type 0
Bytes = List ℕ

-- What write(2) returns: a count, or -1 with errno EWOULDBLOCK or another one.
pub data WriteResult : Type 0 where
  accepted : ℕ → WriteResult
  write_would_block : WriteResult
  write_failed : ℕ → WriteResult

-- What read(2) returns, with the bytes that it has read; none at the end of the file.
pub data ReadResult : Type 0 where
  received : Bytes → ReadResult
  read_would_block : ReadResult
  read_failed : ℕ → ReadResult

-- How a member ends, `returned` with the bytes that went through and their count; `calling` if it
-- makes a further system call after the results given.
pub data Ended : Type 0 where
  returned : ℕ → Bytes → Ended
  system_error : ℕ → Ended
  runtime_error calling : Ended

pub write_as_single : WriteResult → Bytes → Ended
write_as_single (accepted n) buf = if n == length buf then returned n buf else runtime_error
write_as_single write_would_block buf = system_error 11
write_as_single (write_failed e) buf = system_error e

pub read_as_single : ReadResult → ℕ → Ended
read_as_single (received bytes) size =
    if length bytes == size then returned size bytes else runtime_error
read_as_single read_would_block size = system_error 11
read_as_single (read_failed e) size = system_error e

-- The loop of write_as_chunks, with the bytes that have gone out and `done`.
pub write_chunks : List WriteResult → Bytes → Bytes → ℕ → Ended
write_chunks results [] out done = returned done out
write_chunks [] (b ∷ bs) out done = calling
write_chunks (accepted n ∷ results) (b ∷ bs) out done =
    let rest = write_chunks results (drop n (b ∷ bs)) (out ++ take n (b ∷ bs)) (done + n) in
    if ltb (length (b ∷ bs)) n then runtime_error else rest
write_chunks (write_would_block ∷ results) (b ∷ bs) out done = returned done out
write_chunks (write_failed e ∷ results) (b ∷ bs) out done = system_error e

pub write_as_chunks : List WriteResult → Bytes → Ended
write_as_chunks results buf = write_chunks results buf [] 0

-- The loop of read_as_chunks, with the size of what is left of the buffer.
pub read_chunks : List ReadResult → ℕ → Bytes → ℕ → Ended
read_chunks results zero inp done = returned done inp
read_chunks [] (suc size) inp done = calling
read_chunks (received [] ∷ results) (suc size) inp done = returned done inp
read_chunks (received (b ∷ bs) ∷ results) (suc size) inp done =
    let n = length (b ∷ bs) in
    let rest = read_chunks results (suc size - n) (inp ++ b ∷ bs) (done + n) in
    if ltb (suc size) n then runtime_error else rest
read_chunks (read_would_block ∷ results) (suc size) inp done = returned done inp
read_chunks (read_failed e ∷ results) (suc size) inp done = system_error e

pub read_as_chunks : List ReadResult → ℕ → Ended
read_as_chunks results size = read_chunks results size [] 0
