-- ===== src/Select/Reactor.antt =====
-- select/src/select_reactor.hpp, select_reactor.cpp: the reactor. Its members hold the mutex but while
-- run() is in select(2), so a run is a sequence of whole members and of iterations of the loop.
pub mod Sides
pub mod Registered
pub mod Dispatch
pub mod Run
mod Tests
use cosec_examples.Prelude.{
  ℕ, zero, suc, ◌-◌, Bool, true, false, Option, none, some, List, [], ◌∷◌, ◌++◌, ltb, leb, ◌==◌,
  if◌then◌else◌,
}

abbrev pub Fd : Type 0
Fd = ℕ

-- A handler, by its identity; an empty std::function is `none`.
abbrev pub Task : Type 0
Task = ℕ

pub data ReactorOp : Type 0 where
  read write : ReactorOp

-- `events_[op]` and `fd_sets_[op]`.
pub record Side : Type 0 where
  pub events : List (Fd × Option Task)
  pub fd_set : Fd → Bool

pub record Reactor : Type 0 where
  pub pipe : Fd
  pub reading : Side
  pub writing : Side
  pub to_be_closed : List Fd
  pub stopping : Bool

abbrev pub fd_setsize : ℕ
fd_setsize = 1024

pub data Error : Type 0 where
  fd_too_big invalid_mask end_of_pipe : Error
  errno : ℕ → Error

pub data Result {ℓ} (A : Type ℓ) : Type ℓ where
  ok : A → Result A
  threw : Error → Result A

abbrev pub find : Fd → List (Fd × Option Task) → Option (Option Task)
find fd [] = none
find fd ((k, h) ∷ es) = if k == fd then some h else find fd es

-- std::map keeps its keys in order.
pub insert : Fd → Option Task → List (Fd × Option Task) → List (Fd × Option Task)
insert fd h [] = (fd, h) ∷ []
insert fd h ((k, g) ∷ es) =
    if k == fd
    then (fd, h) ∷ es
    else if ltb fd k
    then (fd, h) ∷ (k, g) ∷ es
    else (k, g) ∷ insert fd h es

pub erase : Fd → List (Fd × Option Task) → List (Fd × Option Task)
erase fd [] = []
erase fd ((k, g) ∷ es) = if k == fd then es else (k, g) ∷ erase fd es

-- FD_SET and FD_CLR
abbrev pub put : Fd → Bool → (Fd → Bool) → Fd → Bool
put fd b s k = if k == fd then b else s k

-- `events_[op].empty()?-1:std::prev(events_[op].end())->first`, plus one: the rounds of the loop.
pub rounds : List (Fd × Option Task) → ℕ
rounds [] = 0
rounds ((k, h) ∷ []) = suc k
rounds ((k, h) ∷ e ∷ es) = rounds (e ∷ es)

abbrev pub side : ReactorOp → Reactor → Side
side read r = r.reading
side write r = r.writing

abbrev pub with_side : ReactorOp → Side → Reactor → Reactor
with_side read s r = record r { reading = s }
with_side write s r = record r { writing = s }

pub empty_side : Side
empty_side = record { events = []; fd_set = λ k. false }

-- The constructor, on the read end of its new pipe.
unfoldable pub init : Fd → Reactor
init pipe = record {
  pipe = pipe;
  reading = record { events = (pipe, none) ∷ []; fd_set = put pipe true (λ k. false) };
  writing = empty_side;
  to_be_closed = [];
  stopping = false;
}

-- What the members return beside the state: whether a byte was written to the pipe.
pub stop : Reactor → Reactor × Bool
stop r = (
  record r {
    reading = record { events = []; fd_set = r.reading.fd_set };
    writing = record { events = []; fd_set = r.writing.fd_set };
    stopping = true;
  },
  true,
)

-- events_[op].erase(fd); FD_CLR(fd,&fd_sets_[op]);
abbrev pub removed : Fd → Side → Side
removed fd s = record { events = erase fd s.events; fd_set = put fd false s.fd_set }

pub register : Fd → Option Task → Side → Side × Bool
register fd (some h) s = (
  record { events = insert fd (some h) s.events; fd_set = put fd true s.fd_set },
  (if s.fd_set fd then false else true),
)
register fd none s = if s.fd_set fd then (removed fd s, false) else (s, false)

pub handle : Fd → ReactorOp → Option Task → Reactor → Result (Reactor × Bool)
handle fd op h r =
    if leb fd_setsize fd
    then threw fd_too_big
    else ok (with_side op (register fd h (side op r)).0 r, (register fd h (side op r)).1)

pub close_side : Fd → Side → Side
close_side fd s = if s.fd_set fd then removed fd s else s

pub close : Fd → Reactor → Reactor × Bool
close fd r = if leb fd_setsize fd then (r, false) else (
  record r {
    reading = close_side fd r.reading;
    writing = close_side fd r.writing;
    to_be_closed = r.to_be_closed ++ fd ∷ [];
  },
  true,
)

-- A read of 16 bytes from the pipe.
pub data Read : Type 0 where
  bytes : ℕ → Read
  would_block : Read
  failed : ℕ → Read

-- while((ret=pipe_[0].read(buf))==ssize_t(sizeof(buf))); over the results of the reads. A
-- non-blocking pipe with no more to give is at EWOULDBLOCK.
pub drain : List Read → Result (Unit {0})
drain [] = ok tt
drain (would_block ∷ rs) = ok tt
drain (failed e ∷ rs) = threw (errno e)
drain (bytes n ∷ rs) =
    let more = drain rs in if n == 16 then more else if n == 0 then threw end_of_pipe else ok tt

-- The state of the loops over the sets that select(2) returned.
pub record Loop : Type 0 where
  pub side_left : Side
  pub posted : List Task
  pub count : ℕ
  pub done : Bool

-- The body for an fd that is set. `drained` is what draining the pipe gives.
pub ready : Fd → Result (Unit {0}) → Side → List Task → Result (Side × List Task)
ready i drained s posted = elim (find i s.events) [
  | none ↦ threw invalid_mask
  | some (some h) ↦ ok (removed i s, posted ++ h ∷ [])
  | some none ↦ elim drained [ ok u ↦ ok (s, posted) | threw e ↦ threw e ]
]

abbrev pub counted : ℕ → Result (Side × List Task) → Result Loop
counted count (threw e) = threw e
counted count (ok (s, posted)) = ok (record {
  side_left = s;
  posted = posted;
  count = if count == 1 then 0 else count - 1;
  done = if count == 1 then false else true;
})

-- One set. `--count` is not zero, and both loops are left, just if count was not 1.
pub scan : ℕ → Fd → (Fd → Bool) → Result (Unit {0}) → Loop → Result Loop
scan zero i mask drained l = ok l
scan (suc n) i mask drained l = elim (mask i) [
  | false ↦ scan n (suc i) mask drained l
  | true ↦ elim (counted l.count (ready i drained l.side_left l.posted)) [
    | threw e ↦ threw e
    | ok l' ↦ elim l'.done [ true ↦ ok l' | false ↦ scan n (suc i) mask drained l' ]
  ]
]

abbrev at_side : ReactorOp → Loop → Reactor → Reactor
at_side op l r = with_side op l.side_left r

-- Both sets. The numbers of rounds are those of the events when select(2) was called.
pub process :
    ℕ
    → (Fd → Bool)
    → ℕ
    → (Fd → Bool)
    → ℕ
    → Result (Unit {0})
    → Reactor
    → Result (Reactor × List Task)
process nr mr nw mw count drained r =
    elim (scan nr 0 mr drained
      (record { side_left = r.reading; posted = []; count = count; done = false })) [
        | threw e ↦ threw e
        | ok l ↦ elim l.done [
          | true ↦ ok (at_side read l r, l.posted)
          | false ↦
              elim (scan nw 0 mw drained (record {
                side_left = r.writing;
                posted = l.posted;
                count = l.count;
                done = false;
              })) [
                | threw e ↦ threw e
                | ok l' ↦ ok (at_side write l' (at_side read l r), l'.posted)
              ]
        ]
      ]

-- What select(2) gives: an error number, or the number of bits and the sets.
pub data Selected : Type 0 where
  select_failed : ℕ → Selected
  selected : ℕ → (Fd → Bool) → (Fd → Bool) → Selected

-- Where an iteration leads: to the next one, with the tasks posted; out of run(); or out by an
-- exception.
pub data Next : Type 0 where
  again : Reactor → List Task → Next
  returned : Reactor → Next
  raised : Error → Next

abbrev pub eintr : ℕ
eintr = 4

abbrev pub next_of : Result (Reactor × List Task) → Next
next_of (ok (r, posted)) = again r posted
next_of (threw e) = raised e

-- The loop of run() from the return of select(2) on.
pub iterate : ℕ → ℕ → Selected → List Read → Reactor → Next
iterate nr nw (select_failed e) reads r =
    if e == eintr
    then (if r.stopping
        then returned (record r { to_be_closed = [] })
        else again (record r { to_be_closed = [] }) [])
    else raised (errno e)
iterate nr nw (selected count mr mw) reads r =
    if r.stopping
    then returned (record r { to_be_closed = [] })
    else if count == 0
    then again (record r { to_be_closed = [] }) []
    else next_of (process nr mr nw mw count (drain reads) (record r { to_be_closed = [] }))
