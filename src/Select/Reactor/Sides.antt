-- ===== src/Select/Reactor/Sides.antt =====
-- select/src/select_reactor.cpp: the members keep the tables and the sets of the reactor in step.
use cosec_examples.Prelude.{
  suc, ◌≤◌, ◌<◌, ◌≡◌, ◌≢◌, refl, sym, ◌∙◌, leb, Bool, true, false, Option, none, some, List, [],
  ◌∷◌, ◌++◌, ◌==◌, if◌then◌else◌, arith, inl, inr, Bool-cases,
}
use cosec_examples.Select.Reactor.{
  Fd, Task, ReactorOp, read, write, Side, Reactor, ok, side, with_side, find, insert, erase, rounds,
  register, handle, close_side, close, init, empty_side, fd_setsize, removed,
}

-- Keys rise along a std::map.
abbrev pub Ascending : Fd → List (Fd × Option Task) → Type 0
Ascending lo [] = Unit {0}
Ascending lo ((k, h) ∷ es) = (lo ≤ k) × Ascending (suc k) es

pub Ascending-widen :
    (lo lo' : Fd) (es : List (Fd × Option Task)) → lo' ≤ lo → Ascending lo es → Ascending lo' es
Ascending-widen lo lo' [] h a = tt
Ascending-widen lo lo' ((k, g) ∷ es) h a = (omega arith, a.1)

find_below :
    (fd lo : Fd) (es : List (Fd × Option Task)) → Ascending lo es → fd < lo → find fd es ≡ none
find_below fd lo [] a h = refl
find_below fd lo ((k, g) ∷ es) a h = ground (arith, find_below fd (suc k) es a.1)

insert-Ascending :
    (fd lo : Fd) (h : Option Task) (es : List (Fd × Option Task))
    → lo ≤ fd
    → Ascending lo es
    → Ascending lo (insert fd h es)
unfolding insert
insert-Ascending fd lo h [] l a = (l, tt)
insert-Ascending fd lo h ((k, g) ∷ es) l a =
    ground (arith, insert-Ascending fd (suc k) h es, Ascending-widen (suc k) (suc fd) es)

erase-Ascending :
    (fd lo : Fd) (es : List (Fd × Option Task)) → Ascending lo es → Ascending lo (erase fd es)
unfolding erase
erase-Ascending fd lo [] a = tt
erase-Ascending fd lo ((k, g) ∷ es) a =
    ground (arith, erase-Ascending fd (suc k) es a.1, Ascending-widen (suc k) lo es)

pub find-insert :
    (k fd : Fd) (h : Option Task) (es : List (Fd × Option Task))
    → find k (insert fd h es) ≡ (if fd == k then some h else find k es)
unfolding insert
find-insert k fd h [] = refl
find-insert k fd h ((j, g) ∷ es) = ground (arith, find-insert k fd h es)

pub find-erase :
    (k fd lo : Fd) (es : List (Fd × Option Task))
    → Ascending lo es
    → find k (erase fd es) ≡ (if fd == k then none else find k es)
unfolding erase
find-erase k fd lo [] a = ground arith
find-erase k fd lo ((j, g) ∷ es) a =
    ground (arith, find-erase k fd (suc j) es a.1, find_below k (suc j) es a.1)

-- The loop over a set runs over every fd that has an event.
pub find-lt-rounds :
    (k lo : Fd) (h : Option Task) (es : List (Fd × Option Task))
    → Ascending lo es
    → find k es ≡ some h
    → k < rounds es
unfolding rounds
find-lt-rounds k lo h [] a e = cc
find-lt-rounds k lo h ((j, g) ∷ []) a e = ground arith
find-lt-rounds k lo h ((j, g) ∷ (i, f) ∷ es) a e = ground (
  arith,
  find-lt-rounds k (suc j) h ((i, f) ∷ es) a.1,
  find-lt-rounds i (suc j) f ((i, f) ∷ es) a.1,
)

abbrev pub is_some {ℓ} : {A : Type ℓ} → Option A → Bool
is_some none = false
is_some (some a) = true

-- An fd is in the set just if it has an event; an empty handler is that of the pipe.
pub record SideInv (pipe : Fd) (s : Side) : Type 0 where
  pub ascending : Ascending 0 s.events
  pub linked : (fd : Fd) → s.fd_set fd ≡ is_some (find fd s.events)
  pub empty_handler : (fd : Fd) → find fd s.events ≡ some none → fd ≡ pipe
  pub small : (fd : Fd) → s.fd_set fd ≡ true → fd < fd_setsize

pub record Inv (r : Reactor) : Type 0 where
  pub reads : SideInv r.pipe r.reading
  pub writes : SideInv r.pipe r.writing
  pub waking : find r.pipe r.reading.events ≡ some none
  pub running : r.stopping ≡ false

pub init-Inv : (pipe : Fd) → pipe < fd_setsize → Inv (init pipe)
unfolding init empty_side
init-Inv pipe h = record {
  reads = record {
    ascending = omega arith;
    linked = λ fd. ground arith;
    empty_handler = λ fd e. ground arith;
    small = λ fd e. ground arith;
  };
  writes = record {
    ascending = tt;
    linked = λ fd. refl;
    empty_handler = λ fd e. cc;
    small = λ fd e. cc;
  };
  waking = ground arith;
  running = refl;
}

pub removed-SideInv : (pipe fd : Fd) (s : Side) → SideInv pipe s → SideInv pipe (removed fd s)
removed-SideInv pipe fd s v = record {
  ascending = erase-Ascending fd 0 s.events v.ascending;
  linked = λ k. ground (arith, v.linked k, find-erase k fd 0 s.events v.ascending);
  empty_handler = λ k e. ground (arith, v.empty_handler k, find-erase k fd 0 s.events v.ascending);
  small = λ k e. ground (arith, v.small k);
}

register-SideInv :
    (pipe fd : Fd) (h : Option Task) (s : Side)
    → fd < fd_setsize
    → SideInv pipe s
    → SideInv pipe (register fd h s).0
unfolding register
register-SideInv pipe fd (some t) s l v = record {
  ascending = insert-Ascending fd 0 (some t) s.events (omega arith) v.ascending;
  linked = λ k. ground (arith, v.linked k, find-insert k fd (some t) s.events);
  empty_handler = λ k e. ground (arith, v.empty_handler k, find-insert k fd (some t) s.events);
  small = λ k e. ground (arith, v.small k);
}
register-SideInv pipe fd none s l v = elim (Bool-cases (s.fd_set fd)) [
  | inl e ↦ rw e (removed-SideInv pipe fd s v)
  | inr e ↦ rw e v
]

close_side-SideInv : (pipe fd : Fd) (s : Side) → SideInv pipe s → SideInv pipe (close_side fd s)
unfolding close_side
close_side-SideInv pipe fd s v = elim (Bool-cases (s.fd_set fd)) [
  | inl e ↦ rw e (removed-SideInv pipe fd s v)
  | inr e ↦ rw e v
]

find-register :
    (k fd : Fd) (h : Option Task) (pipe : Fd) (s : Side)
    → SideInv pipe s
    → k ≢ fd
    → find k (register fd h s).0.events ≡ find k s.events
unfolding register
find-register k fd (some t) pipe s v ne = ground (arith, find-insert k fd (some t) s.events)
find-register k fd none pipe s v ne = ground (arith, find-erase k fd 0 s.events v.ascending)

find-close_side :
    (k fd : Fd) (pipe : Fd) (s : Side)
    → SideInv pipe s
    → k ≢ fd
    → find k (close_side fd s).events ≡ find k s.events
unfolding close_side
find-close_side k fd pipe s v ne = ground (arith, find-erase k fd 0 s.events v.ascending)

-- A handler for an fd in range that is not the reactor's pipe is registered or taken back, the tables
-- and the sets stay in step, and the pipe stays registered.
pub handle-Inv :
    (r : Reactor) (fd : Fd) (op : ReactorOp) (h : Option Task)
    → fd < fd_setsize
    → fd ≢ r.pipe
    → Inv r
    → (r' : Reactor) × (wake : Bool) × (handle fd op h r ≡ ok (r', wake)) × Inv r'
unfolding handle
handle-Inv r fd read h l ne v = (
  with_side read (register fd h r.reading).0 r,
  (register fd h r.reading).1,
  ground arith,
  record {
    reads = register-SideInv r.pipe fd h r.reading l v.reads;
    writes = v.writes;
    waking = find-register r.pipe fd h r.pipe r.reading v.reads (λ e. ne (sym e)) ∙ v.waking;
    running = v.running;
  },
)
handle-Inv r fd write h l ne v = (
  with_side write (register fd h r.writing).0 r,
  (register fd h r.writing).1,
  ground arith,
  record {
    reads = v.reads;
    writes = register-SideInv r.pipe fd h r.writing l v.writes;
    waking = v.waking;
    running = v.running;
  },
)

-- Closing an fd that is not the reactor's pipe keeps the tables and the sets in step.
pub close-Inv : (r : Reactor) (fd : Fd) → fd ≢ r.pipe → Inv r → Inv (close fd r).0
unfolding close
close-Inv r fd ne v = elim (Bool-cases (leb fd_setsize fd)) [
  | inl e ↦ rw e v
  | inr e ↦ rw e (record {
    reads = close_side-SideInv r.pipe fd r.reading v.reads;
    writes = close_side-SideInv r.pipe fd r.writing v.writes;
    waking = find-close_side r.pipe fd r.pipe r.reading v.reads (λ q. ne (sym q)) ∙ v.waking;
    running = v.running;
  })
]

-- After close the fd has no event and is in no set, and is kept open until select(2) returns; one
-- that is too big was never registered and is not kept.
pub close_forgets :
    (r : Reactor) (fd : Fd) (op : ReactorOp)
    → Inv r
    → (find fd (side op (close fd r).0).events ≡ none)
      × ((side op (close fd r).0).fd_set fd ≡ false)
      × ((close fd r).0.to_be_closed
          ≡ (if leb fd_setsize fd then r.to_be_closed else r.to_be_closed ++ fd ∷ []))
unfolding close close_side
close_forgets r fd read v = (
  ground (
    arith,
    v.reads.linked fd,
    v.reads.small fd,
    find-erase fd fd 0 r.reading.events v.reads.ascending,
  ),
  ground (arith, v.reads.linked fd, v.reads.small fd),
  ground arith,
)
close_forgets r fd write v = (
  ground (
    arith,
    v.writes.linked fd,
    v.writes.small fd,
    find-erase fd fd 0 r.writing.events v.writes.ascending,
  ),
  ground (arith, v.writes.linked fd, v.writes.small fd),
  ground arith,
)
