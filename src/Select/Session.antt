-- ===== src/Select/Session.antt =====
-- select/src/main.cpp, composite_async_ops.hpp: the session of the multiplication server. Its handlers
-- run one after the other, since each operation is started by the handler of the one before.
pub mod Lines
pub mod Found
pub mod Answers
pub mod Served
pub mod Steps
pub mod Room
mod Overrun
mod Tests
use cosec_examples.Prelude.{
  ℕ, ◌≤◌, zero, suc, ◌+◌, ◌-◌, Bool, true, false, Option, none, some, List, [], ◌∷◌, ◌++◌, ◌==◌,
  ltb, if◌then◌else◌, length, take, drop,
}
use cosec_examples.Select.ReadUntil.{
  Bytes, Error, length_error, broken_pipe, system_error, Buffer, Until, async_read_until_impl,
  read_completed, read_failed,
}

-- boost::multiprecision::cpp_int: its default value, its constructor from a C string, the product and
-- str().
pub record BigInt (N : Type 0) : Type 0 where
  pub nought : N
  pub parse : Bytes → Option N
  pub multiply : N → N → N
  pub str : N → Bytes

abbrev pub max_length : ℕ
max_length = 1024

abbrev pub newline : ℕ
newline = 10

-- What the session waits for. `overrun`: the callback has been given the length_error, and a read is
-- under way whose callback was moved from; `crashed`: that callback has been called.
pub data Phase : Type 0 where
  reading : ℕ → Phase
  writing : Bytes → Phase
  closed overrun crashed : Phase

-- session_data, and the bytes that have gone out.
pub record Session (N : Type 0) : Type 0 where
  pub in_buf : Buffer
  pub searched : ℕ
  pub a : N
  pub reading_b : Bool
  pub phase : Phase
  pub sent : Bytes

-- What a C string is, of bytes without a terminator of their own.
unfoldable pub c_string : Bytes → Bytes
c_string [] = []
c_string (b ∷ bs) = let rest = c_string bs in if b == 0 then [] else b ∷ rest

-- How a read or a write ends.
pub data Event : Type 0 where
  read_done : Bytes → Event
  read_error : Event
  wrote : ℕ → Event
  write_error : Event

-- d_->read_buffered_number: the erase.
unfoldable pub erase : {N : Type 0} → ℕ → Session N → Session N
erase n s = record s { in_buf = record s.in_buf { bytes = drop n s.in_buf.bytes } }

-- The handler returns without a new operation: the last owner of the session is gone.
unfoldable pub close : {N : Type 0} → Session N → Session N
close s = record s { phase = closed }

-- The exception is logged; a read may still be under way.
unfoldable pub failed : {N : Type 0} → Session N → Option ℕ → Session N
failed s none = close s
failed s (some len) = record s { phase = overrun }

-- The read that is under way.
unfoldable pub awaiting : Option ℕ → Phase
awaiting none = closed
awaiting (some len) = reading len

-- What the read until a newline leads to; `next` is the handler of a number of bytes.
unfoldable pub on_read : {N : Type 0} → (Session N → ℕ → Session N) → Session N → Until → Session N
on_read next s u =
    let t = record s { in_buf = u.buffer; searched = u.searched } in
    elim u.callback [
      | none ↦ record t { phase = awaiting u.read_of }
      | some r ↦ elim r.0 [ none ↦ next t r.1 | some e ↦ failed t u.read_of ]
    ]

-- The completions that the operation under way can have. A write of nothing is one too.
pub data Completes : Phase → Event → Type 0 where
  read_some :
      {len : ℕ} {chunk : Bytes} → length chunk ≤ len → Completes (reading len) (read_done chunk)
  read_fails : {len : ℕ} → Completes (reading len) read_error
  write_some : {rest : Bytes} {n : ℕ} → n ≤ length rest → Completes (writing rest) (wrote n)
  write_fails : {rest : Bytes} → Completes (writing rest) write_error
  stale_read : {chunk : Bytes} → Completes overrun (read_done chunk)
  stale_read_fails : Completes overrun read_error

unfoldable pub chunk_of : Event → Bytes
chunk_of (read_done chunk) = chunk
chunk_of read_error = []
chunk_of (wrote n) = []
chunk_of write_error = []

module _ {N : Type 0} (big : BigInt N) where
  -- in_buf_[n-1] = '\0', and the number is read from there.
  unfoldable pub read_buffered_number : ℕ → Bytes → Option N
  read_buffered_number n bs = big.parse (c_string (take (n - 1) bs))

  -- The product, as it goes out.
  unfoldable pub reply : N → N → Bytes
  reply x y = big.str (big.multiply x y) ++ newline ∷ []

  -- The handler of the second number.
  unfoldable pub on_b : Session N → ℕ → Session N
  on_b s n = elim (read_buffered_number n s.in_buf.bytes) [
    | none ↦ close s
    | some b ↦ record (erase n s) { phase = writing (reply s.a b) }
  ]

  module _ (grow : ℕ → ℕ) where
    unfoldable pub read_until : (Session N → ℕ → Session N) → Session N → Session N
    read_until next s = on_read next s (async_read_until_impl grow newline s.searched s.in_buf)

    -- The handler of the first number.
    unfoldable pub on_a : Session N → ℕ → Session N
    on_a s n = elim (read_buffered_number n s.in_buf.bytes) [
      | none ↦ close s
      | some x ↦ read_until on_b (record (erase n s) { a = x; reading_b = true; searched = 0 })
    ]

    unfoldable pub on_number : Session N → ℕ → Session N
    on_number s n = if s.reading_b then on_b s n else on_a s n

    unfoldable pub start : Session N → Session N
    start s = read_until on_a (record s { reading_b = false; searched = 0 })

    -- async_write: the rest is written again.
    unfoldable pub written : Session N → Bytes → ℕ → Session N
    written s rest n =
        let t = record s { sent = s.sent ++ take n rest } in
        if n == length rest then start t else record t { phase = writing (drop n rest) }

    -- What a completion does in each phase.
    unfoldable pub step_in : Phase → Session N → Event → Session N
    step_in (reading len) s (read_done chunk) =
        on_read on_number s (read_completed grow newline s.searched s.in_buf chunk)
    step_in (reading len) s read_error = on_read on_number s (read_failed s.searched s.in_buf)
    step_in (reading len) s (wrote n) = s
    step_in (reading len) s write_error = s
    step_in (writing rest) s (wrote n) = written s rest n
    step_in (writing rest) s write_error = close s
    step_in (writing rest) s (read_done chunk) = s
    step_in (writing rest) s read_error = s
    step_in closed s e = s
    step_in overrun s (read_done chunk) = record s { phase = crashed }
    step_in overrun s read_error = record s { phase = crashed }
    step_in overrun s (wrote n) = s
    step_in overrun s write_error = s
    step_in crashed s e = s

    unfoldable pub step : Session N → Event → Session N
    step s e = step_in s.phase s e

    -- The session of a new connection; a new std::string has some capacity.
    unfoldable pub accepted : ℕ → Session N
    accepted capacity = start (record {
      in_buf = record { bytes = []; capacity = capacity; max_size = max_length };
      searched = 0;
      a = big.nought;
      reading_b = false;
      phase = closed;
      sent = [];
    })

    -- The states that a new connection can get to, with the bytes received on the way.
    pub data Reaches (capacity : ℕ) : Session N → Bytes → Type 0 where
      accept : Reaches capacity (accepted capacity) []
      completes :
          {s : Session N} {received : Bytes} {e : Event}
          → Reaches capacity s received
          → Completes s.phase e
          → Reaches capacity (step s e) (received ++ chunk_of e)
