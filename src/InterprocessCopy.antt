-- ===== src/InterprocessCopy.antt =====
-- interprocess-copy/src/main.cpp, event.hpp: a parent sends data to its child in three ways. A step is what one
-- process does up to its next system call; a blocking call is a step only when it can return.
pub mod Modes
pub mod Steps
pub mod Progress
mod Tests
use cosec_examples.Prelude.{
  ℕ, zero, suc, ◌+◌, ◌*◌, ◌/◌, ◌%◌, ◌^◌, ◌≤◌, ◌<◌, ◌≡◌, ◌≢◌, Bool, true, false, List, [], ◌∷◌, ◌++◌,
  ◌==◌, if◌then◌else◌, length, take, drop,
}

abbrev pub Bytes : Type 0
Bytes = List ℕ

pub data Op : Type 0 where
  shared_memory pipe vm_write : Op

-- The constants, of the bits above the lower 32.
abbrev pub quit_op : ℕ
quit_op = 0x100000000

abbrev pub code : Op → ℕ
code shared_memory = 0x200000000
code pipe = 0x300000000
code vm_write = 0x400000000

-- op|n, where n has 32 bits.
unfoldable pub request : Op → ℕ → ℕ
request op n = code op + n

-- op&n_mask
unfoldable pub length_of : ℕ → ℕ
length_of x = x % 2 ^ 32

-- op&op_mask
unfoldable pub op_of : ℕ → ℕ
op_of x = x / 2 ^ 32 % 16 * 2 ^ 32

-- What the parent does next: an iteration; the rest of a write to the pipe, of `n` bytes; to wait for the child.
pub data Parent : Type 0 where
  between : Parent
  piping : ℕ → Bytes → Parent
  waiting : ℕ → Parent
  parent_ended : Parent

-- What the child does next: to wait for a request; to read from the pipe, of `n` bytes those that are left.
pub data Child : Type 0 where
  listening : Child
  receiving : ℕ → ℕ → Child
  child_ended : Child

-- `data` is a vector of each process, at one address; the mapping is shared; an eventfd is a counter.
pub record System : Type 0 where
  pub parent_data : Bytes
  pub child_data : Bytes
  pub mapping : Bytes
  pub in_pipe : Bytes
  pub event_to_child : ℕ
  pub event_to_parent : ℕ
  pub parent : Parent
  pub child : Child
  pub iterations : List (Op × ℕ)

-- std::copy of `n` bytes to the start.
unfoldable pub copy : ℕ → Bytes → Bytes → Bytes
copy n source destination = take n source ++ drop n destination

-- Bytes that are read to an offset.
unfoldable pub put_at : ℕ → Bytes → Bytes → Bytes
put_at offset chunk destination =
    take offset destination ++ (chunk ++ drop (offset + length chunk) destination)

-- A write to the pipe returns when all its bytes are there.
unfoldable pub piped : ℕ → Bytes → Parent
piped n [] = waiting n
piped n (b ∷ bs) = piping n (b ∷ bs)

-- The body of a benchmark's loop, to its first blocking call.
unfoldable pub iterate : Op → ℕ → System → System
iterate shared_memory n s = record s {
  mapping = copy n s.parent_data s.mapping;
  event_to_child = s.event_to_child + request shared_memory n;
  parent = waiting n;
}
iterate pipe n s = record s {
  event_to_child = s.event_to_child + request pipe n;
  parent = piped n (take n s.parent_data);
}
iterate vm_write n s = record s {
  child_data = copy n s.parent_data s.child_data;
  event_to_child = s.event_to_child + request vm_write n;
  parent = waiting n;
}

-- event_to_parent.write(); and back to the start of the child's loop.
unfoldable pub answer : System → System
answer s = record s { event_to_parent = s.event_to_parent + 1; child = listening }

-- data_pipe[0].read_as_chunks: of `n` bytes `got` are there.
unfoldable pub receive : ℕ → ℕ → System → System
receive n got s = if got == n then answer s else record s { child = receiving n got }

-- The switch of the child's loop.
unfoldable pub dispatch : ℕ → System → System
dispatch x s =
    let n = length_of x in
    if op_of x == quit_op
    then record s { child = child_ended }
    else if op_of x == code shared_memory
    then answer (record s { child_data = copy n s.mapping s.child_data })
    else if op_of x == code pipe
    then receive n 0 s
    else if op_of x == code vm_write
    then answer s
    else record s { child = listening }

-- The pipe holds `capacity` bytes, and a write to a full one blocks.
pub data Step (capacity : ℕ) (s : System) : System → Type 0 where
  iteration :
      {op : Op} {n : ℕ} {rest : List (Op × ℕ)}
      → s.parent ≡ between
      → s.iterations ≡ (op, n) ∷ rest
      → Step capacity s (iterate op n (record s { iterations = rest }))
  quit :
      s.parent ≡ between
      → s.iterations ≡ []
      → Step capacity s
          (record s { event_to_child = s.event_to_child + quit_op; parent = parent_ended })
  -- Some bytes get into the pipe.
  pipe_in :
      {n : ℕ} (chunk rest : Bytes)
      → s.parent ≡ piping n (chunk ++ rest)
      → 1 ≤ length chunk
      → length s.in_pipe + length chunk ≤ capacity
      → Step capacity s (record s { in_pipe = s.in_pipe ++ chunk; parent = piped n rest })
  -- event_to_parent.read()
  woken :
      {n : ℕ}
      → s.parent ≡ waiting n
      → 1 ≤ s.event_to_parent
      → Step capacity s (record s { event_to_parent = 0; parent = between })
  -- event_to_child.read()
  asked :
      s.child ≡ listening
      → 1 ≤ s.event_to_child
      → Step capacity s (dispatch s.event_to_child (record s { event_to_child = 0 }))
  -- Some bytes get out of the pipe.
  pipe_out :
      {n got : ℕ} (chunk rest : Bytes)
      → s.child ≡ receiving n got
      → s.in_pipe ≡ chunk ++ rest
      → 1 ≤ length chunk
      → got + length chunk ≤ n
      → Step capacity s (
          receive n
            (got + length chunk)
            (record s { in_pipe = rest; child_data = put_at got chunk s.child_data }))

-- Every length of the iterations is one of the data.
pub data Lengths (bound : ℕ) : List (Op × ℕ) → Type 0 where
  no_more : Lengths bound []
  one_more :
      {op : Op} {n : ℕ} {rest : List (Op × ℕ)}
      → n ≤ bound
      → Lengths bound rest
      → Lengths bound ((op, n) ∷ rest)

-- Both processes after the fork.
pub record Forked (s : System) : Type 0 where
  pub no_pipe : s.in_pipe ≡ []
  pub no_request : s.event_to_child ≡ 0
  pub no_answer : s.event_to_parent ≡ 0
  pub parent_starts : s.parent ≡ between
  pub child_starts : s.child ≡ listening
  pub lengths : Lengths (length s.parent_data) s.iterations
  pub small : length s.parent_data < 2 ^ 32

pub data Reaches (capacity : ℕ) (s : System) : System → Type 0 where
  here : Reaches capacity s s
  further : {t u : System} → Reaches capacity s t → Step capacity t u → Reaches capacity s u
