-- ===== src/Select/Reactor/Run.antt =====
-- select/src/select_reactor.cpp: the iterations of run().
use cosec_examples.Prelude.{
  ℕ, ◌+◌, ◌≤◌, ◌<◌, ◌≡◌, refl, ◌∙◌, ap, Bool, true, false, Option, none, some, List, [], ◌∷◌,
  length, arith,
}
use cosec_examples.Select.Reactor.{
  Fd, Task, ReactorOp, read, write, Reactor, invalid_mask, Result, ok, side, find, ready, stop,
  close, drain, Read, selected, again, returned, raised, next_of, iterate, removed,
}
use cosec_examples.Select.Reactor.Sides.{Inv, removed-SideInv, find-erase, close_forgets}
use cosec_examples.Select.Reactor.Dispatch.{bits, lowest, lowest_set, first, serve, process-serve}

-- What select(2) says of its sets: it returns the number of bits that are set.
abbrev pub Counts : ℕ → (Fd → Bool) → ℕ → (Fd → Bool) → ℕ → Type 0
Counts nr mr nw mw count = bits nr 0 mr + bits nw 0 mw ≡ count

abbrev pub chosen : ℕ → (Fd → Bool) → ℕ → (Fd → Bool) → Option (ReactorOp × Fd)
chosen nr mr nw mw = first (lowest nr 0 mr) (lowest nw 0 mw)

abbrev pub closed : Reactor → Reactor
closed r = record r { to_be_closed = [] }

-- While the reactor is not stopping, an iteration with events serves one fd, the lowest of those to
-- read from or else the lowest of those to write to, and leaves the others to later iterations.
pub iterate-serve :
    (nr nw : ℕ) (mr mw : Fd → Bool) (count : ℕ) (reads : List Read) (r : Reactor)
    → r.stopping ≡ false
    → 0 < count
    → Counts nr mr nw mw count
    → iterate nr nw (selected count mr mw) reads r
      ≡ next_of (serve (chosen nr mr nw mw) (drain reads) (closed r))
unfolding iterate
iterate-serve nr nw mr mw count reads r run pos h =
    ground (arith, process-serve nr nw mr mw count (drain reads) (closed r))

-- Every fd that select(2) gives back still has its event.
abbrev pub StillSet : Reactor → (Fd → Bool) → (Fd → Bool) → Type 0
StillSet r mr mw =
    ((i : Fd) → mr i ≡ true → r.reading.fd_set i ≡ true)
    × ((i : Fd) → mw i ≡ true → r.writing.fd_set i ≡ true)

abbrev AllGood : Result (Reactor × List Task) → Type 0
AllGood o =
    (r' : Reactor) × (posted : List Task) × (o ≡ ok (r', posted)) × Inv r' × (length posted ≤ 1)

serve-read_at :
    (r : Reactor) (i : Fd)
    → Inv r
    → r.reading.fd_set i ≡ true
    → (o : Option (Option Task)) → find i r.reading.events ≡ o
    → AllGood (serve (some (read, i)) (ok tt) r)
unfolding ready
serve-read_at r i v h none e = absurd (ground (arith, v.reads.linked i))
serve-read_at r i v h (some none) e = (r, [], ground (arith, e), v, omega arith)
serve-read_at r i v h (some (some t)) e = (
  record r { reading = removed i r.reading },
  t ∷ [],
  ground (arith, e),
  record {
    reads = removed-SideInv r.pipe i r.reading v.reads;
    writes = v.writes;
    waking = ground (arith, v.waking, e, find-erase r.pipe i 0 r.reading.events v.reads.ascending);
    running = v.running;
  },
  omega arith,
)

serve-write_at :
    (r : Reactor) (i : Fd)
    → Inv r
    → r.writing.fd_set i ≡ true
    → (o : Option (Option Task)) → find i r.writing.events ≡ o
    → AllGood (serve (some (write, i)) (ok tt) r)
unfolding ready
serve-write_at r i v h none e = absurd (ground (arith, v.writes.linked i))
serve-write_at r i v h (some none) e = (r, [], ground (arith, e), v, omega arith)
serve-write_at r i v h (some (some t)) e = (
  record r { writing = removed i r.writing },
  t ∷ [],
  ground (arith, e),
  record {
    reads = v.reads;
    writes = removed-SideInv r.pipe i r.writing v.writes;
    waking = v.waking;
    running = v.running;
  },
  omega arith,
)

serve-read :
    (r : Reactor) (i : Fd)
    → Inv r
    → r.reading.fd_set i ≡ true
    → AllGood (serve (some (read, i)) (ok tt) r)
serve-read r i v h = serve-read_at r i v h (find i r.reading.events) refl

serve-write :
    (r : Reactor) (i : Fd)
    → Inv r
    → r.writing.fd_set i ≡ true
    → AllGood (serve (some (write, i)) (ok tt) r)
serve-write r i v h = serve-write_at r i v h (find i r.writing.events) refl

serve_chosen :
    (r : Reactor) (o o' : Option Fd)
    → Inv r
    → ((i : Fd) → o ≡ some i → r.reading.fd_set i ≡ true)
    → ((i : Fd) → o' ≡ some i → r.writing.fd_set i ≡ true)
    → AllGood (serve (first o o') (ok tt) r)
serve_chosen r (some i) o' v h h' = serve-read r i v (h i refl)
serve_chosen r none (some i) v h h' = serve-write r i v (h' i refl)
serve_chosen r none none v h h' = (r, [], refl, v, omega arith)

closed-Inv : (r : Reactor) → Inv r → Inv (closed r)
closed-Inv r v = record {
  reads = v.reads;
  writes = v.writes;
  waking = v.waking;
  running = v.running;
}

-- If no fd that select(2) gives back has lost its event since, and the pipe drains, an iteration goes
-- on with the tables and the sets in step, and has posted one handler at most.
pub iterate-Inv :
    (nr nw : ℕ) (mr mw : Fd → Bool) (count : ℕ) (reads : List Read) (r : Reactor)
    → Inv r
    → 0 < count
    → Counts nr mr nw mw count
    → StillSet r mr mw
    → drain reads ≡ ok tt
    → (r' : Reactor) × (posted : List Task) × (iterate nr nw (selected count mr mw) reads r
        ≡ again r' posted)
      × Inv r'
      × (length posted ≤ 1)
iterate-Inv nr nw mr mw count reads r v pos h still d =
    let (r', posted, e, v', few) =
      serve_chosen (closed r) (lowest nr 0 mr) (lowest nw 0 mw) (closed-Inv r v)
        (λ i l. still.0 i (lowest_set nr 0 mr i l)) (λ i l. still.1 i (lowest_set nw 0 mw i l)) in
    (
      r',
      posted,
      iterate-serve nr nw mr mw count reads r v.running pos h ∙ rw d (ap next_of e),
      v',
      few,
    )

-- If the fd that comes first is closed by close() while run() is in select(2), run() ends by an
-- exception.
pub iterate-close :
    (nr nw : ℕ) (mr mw : Fd → Bool) (count : ℕ) (reads : List Read) (r : Reactor) (op : ReactorOp)
    (i : Fd)
    → Inv r
    → 0 < count
    → Counts nr mr nw mw count
    → chosen nr mr nw mw ≡ some (op, i)
    → iterate nr nw (selected count mr mw) reads (close i r).0 ≡ raised invalid_mask
unfolding close ready
iterate-close nr nw mr mw count reads r op i v pos h c =
    let (gone, _, _) = close_forgets r i op v in
    iterate-serve nr nw mr mw count reads (close i r).0 (close_running r i v) pos h
    ∙ rw c (closed_invalid op i (drain reads) (close i r).0 gone)
  where
    close_running : (x : Reactor) (k : Fd) → Inv x → (close k x).0.stopping ≡ false
    close_running x k w = ground (arith, w.running)

    closed_invalid :
        (o : ReactorOp) (k : Fd) (d : Result (Unit {0})) (x : Reactor)
        → find k (side o x).events ≡ none
        → next_of (serve (some (o, k)) d (closed x)) ≡ raised invalid_mask
    closed_invalid read k d x e = rw (e, ready)
    closed_invalid write k d x e = rw (e, ready)

-- run() returns from an iteration in which select(2) did not fail just if stop() has been called, and
-- stop() wakes it and leaves no event.
pub iterate-stop :
    (nr nw : ℕ) (mr mw : Fd → Bool) (count : ℕ) (reads : List Read) (r : Reactor)
    → (iterate nr nw (selected count mr mw) reads (stop r).0 ≡ returned (closed (stop r).0))
      × ((stop r).1 ≡ true)
      × ((stop r).0.reading.events ≡ [])
      × ((stop r).0.writing.events ≡ [])
      × ((r' : Reactor)
          → iterate nr nw (selected count mr mw) reads r ≡ returned r'
          → r.stopping ≡ true)
unfolding iterate stop
iterate-stop nr nw mr mw count reads r = (refl, refl, refl, refl, λ r' e. ground arith)
