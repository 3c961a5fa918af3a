-- ===== src/Select/AsyncFileDescriptor.antt =====
-- select/src/async_file_descriptor.hpp: reads and writes that wait in the reactor when they would block.
pub mod Waits
mod Tests
use cosec_examples.Prelude.{
  ℕ, Bool, true, false, Option, none, some, List, [], ◌∷◌, ◌==◌, if◌then◌else◌,
}
use cosec_examples.Select.Reactor.{
  Fd, Task, ReactorOp, read, Reactor, Error, errno, Result, ok, threw, handle,
}
use cosec_examples.Select.ThreadPool.{ExecutionKind, dispatch, post}

-- What ::read or ::write returns, or errno.
pub data Transfer : Type 0 where
  transferred : ℕ → Transfer
  failed : ℕ → Transfer

-- EWOULDBLOCK on Linux.
abbrev pub would_block : ℕ
would_block = 11

-- What the executor is given: how, whether the callback has been moved from, and what it is called with.
pub record CallBack : Type 0 where
  pub kind : ExecutionKind
  pub moved_from : Bool
  pub exception : Option Error
  pub count : ℕ

-- The reactor, whether a byte was written to its pipe, and what the executor is given.
pub record Tried : Type 0 where
  pub reactor : Reactor
  pub wakes : Bool
  pub callback : Option CallBack

-- What handle() of the reactor returns, or the catch block, whose `cb` has been moved into the handler.
unfoldable pub handled : ExecutionKind → Reactor → Result (Reactor × Bool) → Tried
handled kind r (ok (r', wakes)) = record { reactor = r'; wakes = wakes; callback = none }
handled kind r (threw e) = record {
  reactor = r;
  wakes = false;
  callback = some (record { kind = kind; moved_from = true; exception = some e; count = 0 });
}

-- Both members, with the handler `h` that tries again.
unfoldable pub async_some_impl : ReactorOp → Fd → Task → Transfer → ExecutionKind → Reactor → Tried
async_some_impl op fd h (transferred n) kind r = record {
  reactor = r;
  wakes = false;
  callback = some (record { kind = kind; moved_from = false; exception = none; count = n });
}
async_some_impl op fd h (failed e) kind r =
    if e == would_block then handled kind r (handle fd op (some h) r) else record {
      reactor = r;
      wakes = false;
      callback =
          some (record { kind = kind; moved_from = false; exception = some (errno e); count = 0 });
    }

unfoldable pub async_read_some_impl : Fd → Task → Transfer → ExecutionKind → Reactor → Tried
async_read_some_impl = async_some_impl read

-- It registers reactor_op::read.
unfoldable pub async_write_some_impl : Fd → Task → Transfer → ExecutionKind → Reactor → Tried
async_write_some_impl = async_some_impl read

-- A call and, as long as it waits, the runs of its handler, each with what the system returns and the reactor
-- that it finds.
unfoldable pub tries :
    (Transfer → ExecutionKind → Reactor → Tried)
    → ExecutionKind
    → List (Transfer × Reactor)
    → Option CallBack
tries impl kind [] = none
tries impl kind ((t, r) ∷ later) = elim (impl t kind r).callback [
  | none ↦ tries impl dispatch later
  | some c ↦ some c
]

unfoldable pub async_read_some : Fd → Task → List (Transfer × Reactor) → Option CallBack
async_read_some fd h = tries (async_read_some_impl fd h) post

unfoldable pub async_write_some : Fd → Task → List (Transfer × Reactor) → Option CallBack
async_write_some fd h = tries (async_write_some_impl fd h) post
