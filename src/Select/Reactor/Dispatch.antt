-- ===== src/Select/Reactor/Dispatch.antt =====
-- select/src/select_reactor.cpp: what an iteration of run() does with the sets of select(2).
use cosec_examples.Prelude.{
  ℕ, zero, suc, ◌+◌, ◌-◌, ◌≤◌, ◌<◌, ◌≡◌, refl, Bool, true, false, Option, none, some, List, [],
  ◌==◌, if◌then◌else◌, arith, inl, inr, Bool-cases, ◌⊎◌,
}
use cosec_examples.Select.Reactor.{
  Fd, Task, ReactorOp, read, write, Side, Reactor, Error, Result, ok, threw, Loop, side, with_side,
  ready, counted, scan, process,
}

-- The bits of a set below `i + n`, from `i` on.
unfoldable pub bits : ℕ → Fd → (Fd → Bool) → ℕ
bits zero i mask = 0
bits (suc n) i mask = (if mask i then 1 else 0) + bits n (suc i) mask

-- The lowest of them.
unfoldable pub lowest : ℕ → Fd → (Fd → Bool) → Option Fd
lowest zero i mask = none
lowest (suc n) i mask = elim (mask i) [ true ↦ some i | false ↦ lowest n (suc i) mask ]

abbrev pub scanned : Option Fd → Result (Unit {0}) → Loop → Result Loop
scanned none drained l = ok l
scanned (some i) drained l = counted l.count (ready i drained l.side_left l.posted)

scan_none :
    (n : ℕ) (i : Fd) (mask : Fd → Bool) (d : Result (Unit {0})) (l : Loop)
    → bits n i mask ≡ 0
    → scan n i mask d l ≡ ok l
unfolding scan bits
scan_none zero i mask d l h = refl
scan_none (suc n) i mask d l h = ground (arith, scan_none n (suc i) mask d l)

scan_rest :
    (n : ℕ) (i : Fd) (mask : Fd → Bool) (d : Result (Unit {0})) (count : ℕ)
    (o : Result (Side × List Task))
    → suc (bits n i mask) ≤ count
    → elim (counted count o) [
      | threw e ↦ threw e
      | ok l ↦ elim l.done [ true ↦ ok l | false ↦ scan n i mask d l ]
    ]
      ≡ counted count o
scan_rest n i mask d count (threw e) h = refl
scan_rest n i mask d count (ok (s, posted)) h = ground (
  arith,
  scan_none n i mask d (record {
    side_left = s;
    posted = posted;
    count = if count == 1 then 0 else count - 1;
    done = if count == 1 then false else true;
  }),
)

scan-lowest :
    (n : ℕ) (i : Fd) (mask : Fd → Bool) (d : Result (Unit {0})) (l : Loop)
    → bits n i mask ≤ l.count
    → scan n i mask d l ≡ scanned (lowest n i mask) d l
unfolding scan bits lowest
scan-lowest zero i mask d l h = refl
scan-lowest (suc n) i mask d l h = elim (Bool-cases (mask i)) [
  | inl set ↦
      rw (set, scan, lowest)
        (scan_rest n (suc i) mask d l.count (ready i d l.side_left l.posted)
          (ground (arith, set, h)))
  | inr clear ↦ rw (clear, scan, lowest) (scan-lowest n (suc i) mask d l (ground (arith, clear, h)))
]

-- Which set and which fd come first.
abbrev pub first : Option Fd → Option Fd → Option (ReactorOp × Fd)
first (some i) o = some (read, i)
first none none = none
first none (some i) = some (write, i)

abbrev pub moved : ReactorOp → Reactor → Result (Side × List Task) → Result (Reactor × List Task)
moved op r (threw e) = threw e
moved op r (ok (s, posted)) = ok (with_side op s r, posted)

-- The fd is served alone: its handler is posted, or the pipe is drained.
abbrev pub serve :
    Option (ReactorOp × Fd) → Result (Unit {0}) → Reactor → Result (Reactor × List Task)
serve none drained r = ok (r, [])
serve (some (op, i)) drained r = moved op r (ready i drained (side op r) [])

lowest_pos :
    (n : ℕ) (i : Fd) (mask : Fd → Bool) (j : Fd) → lowest n i mask ≡ some j → 0 < bits n i mask
unfolding lowest bits
lowest_pos zero i mask j h = cc
lowest_pos (suc n) i mask j h = ground (arith, lowest_pos n (suc i) mask j)

Result-cases {ℓ} :
    {A : Type ℓ} (o : Result A) → ((e : Error) × (o ≡ threw e)) ⊎ ((a : A) × (o ≡ ok a))
Result-cases (threw e) = inl (e, refl)
Result-cases (ok a) = inr (a, refl)

process_at :
    (o o' : Option Fd) (nr nw : ℕ) (mr mw : Fd → Bool) (count : ℕ) (d : Result (Unit {0}))
    (r : Reactor)
    → lowest nr 0 mr ≡ o
    → lowest nw 0 mw ≡ o'
    → 0 < count
    → bits nr 0 mr + bits nw 0 mw ≤ count
    → process nr mr nw mw count d r ≡ serve (first o o') d r
unfolding process
process_at none none nr nw mr mw count d r e e' pos h = ground (
  arith,
  e,
  e',
  scan-lowest nr 0 mr d
      (record { side_left = r.reading; posted = []; count = count; done = false }),
  scan-lowest nw 0 mw d
      (record { side_left = r.writing; posted = []; count = count; done = false }),
)
process_at none (some j) nr nw mr mw count d r e e' pos h = ground (
  arith,
  e,
  e',
  scan-lowest nr 0 mr d
      (record { side_left = r.reading; posted = []; count = count; done = false }),
  scan-lowest nw 0 mw d
      (record { side_left = r.writing; posted = []; count = count; done = false }),
)
process_at (some i) o' nr nw mr mw count d r e e' pos h =
    elim (Result-cases (ready i d r.reading [])) [
      | inl (x, threw_x) ↦ ground (
        arith,
        e,
        threw_x,
        scan-lowest nr 0 mr d
            (record { side_left = r.reading; posted = []; count = count; done = false }),
      )
      | inr (y, ok_y) ↦ ground (
        arith,
        e,
        ok_y,
        lowest_pos nr 0 mr i,
        scan-lowest nr 0 mr d
            (record { side_left = r.reading; posted = []; count = count; done = false }),
        scan_none nw 0 mw d
            (record { side_left = r.writing; posted = y.1; count = 0; done = false }),
      )
    ]

pub process-serve :
    (nr nw : ℕ) (mr mw : Fd → Bool) (count : ℕ) (d : Result (Unit {0})) (r : Reactor)
    → 0 < count
    → bits nr 0 mr + bits nw 0 mw ≤ count
    → process nr mr nw mw count d r ≡ serve (first (lowest nr 0 mr) (lowest nw 0 mw)) d r
process-serve nr nw mr mw count d r =
    process_at (lowest nr 0 mr) (lowest nw 0 mw) nr nw mr mw count d r refl refl

pub lowest_set :
    (n : ℕ) (i : Fd) (mask : Fd → Bool) (j : Fd) → lowest n i mask ≡ some j → mask j ≡ true
unfolding lowest
lowest_set zero i mask j h = cc
lowest_set (suc n) i mask j h = elim (Bool-cases (mask i)) [
  | inl set ↦ let here : some i ≡ some j = rw (set, lowest) at h in ground (arith, here, set)
  | inr clear ↦ lowest_set n (suc i) mask j (rw (clear, lowest) at h)
]
