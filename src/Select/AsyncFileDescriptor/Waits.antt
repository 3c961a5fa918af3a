-- ===== src/Select/AsyncFileDescriptor/Waits.antt =====
-- select/src/async_file_descriptor.hpp: what a read or a write that would block does, and how it ends.
use cosec_examples.Prelude.{
  false, ℕ, ◌<◌, ◌≡◌, ◌≢◌, refl, ◌∙◌, ap, subst, true, Option, none, some, List, [], ◌∷◌, ◌++◌, map,
  arith,
}
use cosec_examples.Select.Reactor.{Fd, Task, read, Reactor, fd_setsize, Error, errno, find}
use cosec_examples.Select.Reactor.Sides.{Inv, handle-Inv}
use cosec_examples.Select.Reactor.Registered.{handle-read}
use cosec_examples.Select.ThreadPool.{ExecutionKind, dispatch, post}
use cosec_examples.Select.AsyncFileDescriptor.{
  Transfer, transferred, failed, would_block, CallBack, handled, async_some_impl,
  async_read_some_impl, async_write_some_impl, tries, async_read_some, async_write_some,
}

-- A call that does not block has its callback.
pub data Ready : Transfer → Option Error → ℕ → Type 0 where
  has_transferred : (n : ℕ) → Ready (transferred n) none n
  has_failed : (e : ℕ) → e ≢ would_block → Ready (failed e) (some (errno e)) 0

-- A write by an fd in range that is not the reactor's pipe that would block: no callback, and the books are kept;
-- the fd waits with the handler among those to read from, and the fds to write to are as before.
pub async_write_some_impl_waits :
    (fd : Fd) (h : Task) (kind : ExecutionKind) (r : Reactor)
    → fd < fd_setsize
    → fd ≢ r.pipe
    → Inv r
    → let t = async_write_some_impl fd h (failed would_block) kind r in
      (t.callback ≡ none)
      × Inv t.reactor
      × (find fd t.reactor.reading.events ≡ some (some h))
      × (t.reactor.reading.fd_set fd ≡ true)
      × (t.reactor.writing ≡ r.writing)
unfolding async_write_some_impl async_some_impl handled
async_write_some_impl_waits fd h kind r small ne v =
    let (r', w, e, found, bit, others) = handle-read fd h r small in
    let (q, x, f, kept) = handle-Inv r fd read (some h) small ne v in
    let same : q ≡ r' = cc in rw e (refl, subst Inv same kept, found, bit, others)

-- At once, or after some waits.
abbrev pub kind_after : List Reactor → ExecutionKind
kind_after [] = post
kind_after (r ∷ rs) = dispatch

abbrev pub blocks : List Reactor → List (Transfer × Reactor)
blocks = map (λ r. (failed would_block, r))

module _ (fd : Fd) (h : Task) where
  not_blocked :
      (t : Transfer) (e : Option Error) (n : ℕ) (kind : ExecutionKind) (r : Reactor)
      → Ready t e n
      → (async_some_impl read fd h t kind r).callback
        ≡ some (record { kind = kind; moved_from = false; exception = e; count = n })
  unfolding async_some_impl
  not_blocked _ _ _ kind r (has_transferred n) = refl
  not_blocked _ _ _ kind r (has_failed e ne) = ground (arith, ne)

  blocked :
      (kind : ExecutionKind) (r : Reactor)
      → fd < fd_setsize
      → (async_some_impl read fd h (failed would_block) kind r).callback ≡ none
  unfolding async_some_impl handled
  blocked kind r small = let (r', w, e, _, _, _) = handle-read fd h r small in rw e refl

  tries_at_once :
      (t : Transfer) (e : Option Error) (n : ℕ) (kind : ExecutionKind) (r : Reactor)
      (later : List (Transfer × Reactor))
      → Ready t e n
      → tries (async_some_impl read fd h) kind ((t, r) ∷ later)
        ≡ some (record { kind = kind; moved_from = false; exception = e; count = n })
  unfolding tries
  tries_at_once t e n kind r later k =
      ap
        (λ (o : Option CallBack). elim o [
          | none ↦ tries (async_some_impl read fd h) dispatch later
          | some c ↦ some c
        ])
        (not_blocked t e n kind r k)

  tries-blocked :
      (rs : List Reactor) (t : Transfer) (e : Option Error) (n : ℕ) (r : Reactor)
      (later : List (Transfer × Reactor))
      → fd < fd_setsize
      → Ready t e n
      → tries (async_some_impl read fd h) dispatch (blocks rs ++ ((t, r) ∷ later))
        ≡ some (record { kind = dispatch; moved_from = false; exception = e; count = n })
  unfolding tries
  tries-blocked [] t e n r later small k = tries_at_once t e n dispatch r later k
  tries-blocked (q ∷ rs) t e n r later small k =
      ap
        (λ (o : Option CallBack). elim o [
          | none ↦ tries (async_some_impl read fd h) dispatch (blocks rs ++ ((t, r) ∷ later))
          | some c ↦ some c
        ])
        (blocked dispatch q small)
      ∙ tries-blocked rs t e n r later small k

  tries-Ready :
      (rs : List Reactor) (t : Transfer) (e : Option Error) (n : ℕ) (r : Reactor)
      (later : List (Transfer × Reactor))
      → fd < fd_setsize
      → Ready t e n
      → tries (async_some_impl read fd h) post (blocks rs ++ ((t, r) ∷ later))
        ≡ some (record { kind = kind_after rs; moved_from = false; exception = e; count = n })
  unfolding tries
  tries-Ready [] t e n r later small k = tries_at_once t e n post r later k
  tries-Ready (q ∷ rs) t e n r later small k =
      ap
        (λ (o : Option CallBack). elim o [
          | none ↦ tries (async_some_impl read fd h) dispatch (blocks rs ++ ((t, r) ∷ later))
          | some c ↦ some c
        ])
        (blocked post q small)
      ∙ tries-blocked rs t e n r later small k

-- By an fd in range, after any number of calls that would block and whatever the reactor is at each, the first
-- call of ::read or ::write that does not block gives the callback, which has not been moved from, its count,
-- or its errno and 0: posted when it is the first of all, and dispatched after a wait. No later result matters.
pub async_some-Ready :
    (fd : Fd) (h : Task) (rs : List Reactor) (t : Transfer) (e : Option Error) (n : ℕ) (r : Reactor)
    (later : List (Transfer × Reactor))
    → fd < fd_setsize
    → Ready t e n
    → (async_read_some fd h (blocks rs ++ ((t, r) ∷ later))
        ≡ some (record { kind = kind_after rs; moved_from = false; exception = e; count = n }))
      × (async_write_some fd h (blocks rs ++ ((t, r) ∷ later))
          ≡ some (record { kind = kind_after rs; moved_from = false; exception = e; count = n }))
unfolding async_read_some async_write_some async_read_some_impl async_write_some_impl
async_some-Ready fd h rs t e n r later small k =
    (tries-Ready fd h rs t e n r later small k, tries-Ready fd h rs t e n r later small k)
