-- ===== src/Select/ThreadPool/Invariant.antt =====
-- select/src/thread_pool.cpp: the count of busy workers, and the notification of waiting ones.
use cosec_examples.Prelude.{
  ℕ, zero, suc, ◌+◌, ◌-◌, ◌≤◌, ◌<◌, ◌≡◌, refl, sym, subst, Bool, true, false, Option, none, some,
  List, [], ◌∷◌, if◌then◌else◌, length, get_elem?, set, replicate, arith, inl, inr, Bool-cases,
  Option-cases, ◌⊎◌,
}
use cosec_examples.Select.ThreadPool.{
  Task, ExecutionKind, dispatch, post, defer, Phase, waiting, running, exited, Worker, ThreadPool,
  start, wake, wake_at, finish, finish_at, back_to_wait, queued, enqueue, submit, submit_inside,
}

abbrev pub is_running : Phase → ℕ
is_running waiting = 0
is_running (running t) = 1
is_running exited = 0

pub running_count : List Worker → ℕ
running_count [] = 0
running_count (w ∷ ws) = is_running w.phase + running_count ws

-- Only a worker in a task has a deferred one.
abbrev pub IsTidy : Worker → Type 0
IsTidy w = is_running w.phase ≡ 0 → w.deferred_task ≡ none

abbrev pub AllTidy : List Worker → Type 0
AllTidy [] = Unit {0}
AllTidy (w ∷ ws) = IsTidy w × AllTidy ws

pub record Inv (p : ThreadPool) : Type 0 where
  pub counted : p.busy_workers ≡ running_count p.workers
  pub tidy : AllTidy p.workers

pub running_count-set :
    (ws : List Worker) (i : ℕ) (w w' : Worker)
    → get_elem? ws i ≡ some w
    → running_count (set ws i w') + is_running w.phase ≡ running_count ws + is_running w'.phase
unfolding running_count
running_count-set [] i w w' h = cc
running_count-set (x ∷ ws) zero w w' h = ground arith
running_count-set (x ∷ ws) (suc i) w w' h = omega (arith, running_count-set ws i w w' h)

set-AllTidy : (ws : List Worker) (i : ℕ) (w : Worker) → IsTidy w → AllTidy ws → AllTidy (set ws i w)
set-AllTidy [] i w t a = tt
set-AllTidy (x ∷ ws) zero w t a = (t, a.1)
set-AllTidy (x ∷ ws) (suc i) w t a = (a.0, set-AllTidy ws i w t a.1)

get-IsTidy :
    (ws : List Worker) (i : ℕ) (w : Worker) → get_elem? ws i ≡ some w → AllTidy ws → IsTidy w
get-IsTidy [] i w h a = cc
get-IsTidy (x ∷ ws) zero w h a = ground arith
get-IsTidy (x ∷ ws) (suc i) w h a = get-IsTidy ws i w h a.1

running_count-le : (ws : List Worker) → running_count ws ≤ length ws
unfolding running_count
running_count-le [] = omega arith
running_count-le (w ∷ ws) = ground (arith, running_count-le ws)

running_count-lt :
    (ws : List Worker) (i : ℕ) (w : Worker)
    → get_elem? ws i ≡ some w
    → w.phase ≡ waiting
    → running_count ws < length ws
unfolding running_count
running_count-lt [] i w h e = cc
running_count-lt (x ∷ ws) zero w h e = ground (arith, running_count-le ws)
running_count-lt (x ∷ ws) (suc i) w h e = ground (arith, running_count-lt ws i w h e)

Phase-cases : (ph : Phase) → (ph ≡ waiting) ⊎ ((t : Task) × (ph ≡ running t)) ⊎ (ph ≡ exited)
Phase-cases waiting = inl refl
Phase-cases (running t) = inr (inl (t, refl))
Phase-cases exited = inr (inr refl)

-- Only a worker that waits wakes.
pub wake_cases :
    (p p' : ThreadPool) (i : ℕ)
    → wake i p ≡ some p'
    → (w : Worker) × (get_elem? p.workers i ≡ some w)
      × (w.phase ≡ waiting)
      × (wake_at i w p.tasks p ≡ some p')
unfolding wake
wake_cases p p' i h = elim (Option-cases (get_elem? p.workers i)) [
  | inl e ↦ cc (rw (e, wake) at h)
  | inr (w, e) ↦ elim (Phase-cases w.phase) [
    | inl f ↦ (w, e, f, rw (e, wake, f) at h)
    | inr (inl (t, f)) ↦ absurd (ground (arith, h, e, f))
    | inr (inr f) ↦ absurd (ground (arith, h, e, f))
  ]
]

-- Only a worker in a task finishes one.
pub finish_cases :
    (p p' : ThreadPool) (i : ℕ) (t : Task)
    → finish i p ≡ some (t, p')
    → (w : Worker) × (get_elem? p.workers i ≡ some w)
      × (w.phase ≡ running t)
      × (p' ≡ finish_at i w.deferred_task p)
unfolding finish
finish_cases p p' i t h = elim (Option-cases (get_elem? p.workers i)) [
  | inl e ↦ cc (rw (e, finish) at h)
  | inr (w, e) ↦ elim (Phase-cases w.phase) [
    | inl f ↦ absurd (ground (arith, h, e, f))
    | inr (inl (u, f)) ↦ (w, e, ground (arith, h, e, f), ground (arith, h, e, f))
    | inr (inr f) ↦ absurd (ground (arith, h, e, f))
  ]
]

abbrev changed : ℕ → Worker → ℕ → List Task → ThreadPool → ThreadPool
changed i w' busy ts p = record p { workers = set p.workers i w'; tasks = ts; busy_workers = busy }

-- One worker changes, and the count of busy workers with it.
changed-Inv :
    (p : ThreadPool) (i : ℕ) (w w' : Worker) (busy : ℕ) (ts : List Task)
    → get_elem? p.workers i ≡ some w
    → busy + is_running w.phase ≡ p.busy_workers + is_running w'.phase
    → IsTidy w'
    → Inv p
    → Inv (changed i w' busy ts p)
changed-Inv p i w w' busy ts e b t v = record {
  counted = omega (arith, running_count-set p.workers i w w' e, b, v.counted);
  tidy = set-AllTidy p.workers i w' t v.tidy;
}

-- A worker in a task is counted.
running-busy :
    (p : ThreadPool) (i : ℕ) (w : Worker) (t : Task)
    → get_elem? p.workers i ≡ some w
    → w.phase ≡ running t
    → Inv p
    → 0 < p.busy_workers
running-busy p i w t e f v =
    ground (arith, running_count-set p.workers i w (record w { phase = waiting }) e, f, v.counted)

wake_at-Inv :
    (p p' : ThreadPool) (i : ℕ) (w : Worker) (ts : List Task)
    → get_elem? p.workers i ≡ some w
    → w.phase ≡ waiting
    → wake_at i w ts p ≡ some p'
    → Inv p
    → Inv p'
unfolding wake_at
wake_at-Inv p p' i w ts e f h v = elim (Bool-cases p.stopping) [
  | inl st ↦
      let same : changed i (record w { phase = exited }) p.busy_workers p.tasks p ≡ p' =
        cc (rw st at h) in
      subst Inv same (
        changed-Inv p i w (record w { phase = exited }) p.busy_workers p.tasks e (ground arith)
          (λ _. get-IsTidy p.workers i w e v.tidy (ground arith)) v)
  | inr go ↦ takes ts (rw go at h)
]
  where
    takes :
        (us : List Task)
        → elim us [
          | [] ↦ none
          | t ∷ rest ↦ some (record p {
            workers = set p.workers i (record w { phase = running t });
            tasks = rest;
            busy_workers = suc p.busy_workers;
          })
        ]
          ≡ some p'
        → Inv p'
    takes [] q = cc
    takes (t ∷ rest) q =
        let same : changed i (record w { phase = running t }) (suc p.busy_workers) rest p ≡ p' =
          cc q in
        subst Inv same (
          changed-Inv p i w (record w { phase = running t }) (suc p.busy_workers) rest e
            (ground arith) (λ z. absurd (omega arith)) v)

-- A worker that passes its wait keeps the count of busy workers right.
pub wake-Inv : (p p' : ThreadPool) (i : ℕ) → wake i p ≡ some p' → Inv p → Inv p'
wake-Inv p p' i h v =
    let (w, e, f, h') = wake_cases p p' i h in wake_at-Inv p p' i w p.tasks e f h' v

Inv-if : (b : Bool) {x y : ThreadPool} → Inv x → Inv y → Inv (if b then x else y)
Inv-if true hx hy = hx
Inv-if false hx hy = hy

back_to_wait-Inv :
    (p : ThreadPool) (i : ℕ) (w : Worker) (t : Task)
    → get_elem? p.workers i ≡ some w
    → w.phase ≡ running t
    → Inv p
    → Inv (back_to_wait i p)
unfolding back_to_wait
back_to_wait-Inv p i w t e f v =
    changed-Inv p i w (record { phase = waiting; deferred_task = none }) (p.busy_workers - 1)
      p.tasks e (ground (arith, running-busy p i w t e f v)) (λ _. refl) v

finish_at-Inv :
    (p : ThreadPool) (i : ℕ) (w : Worker) (t : Task) (o : Option Task)
    → get_elem? p.workers i ≡ some w
    → w.phase ≡ running t
    → Inv p
    → Inv (finish_at i o p)
unfolding finish_at
finish_at-Inv p i w t none e f v = back_to_wait-Inv p i w t e f v
finish_at-Inv p i w t (some u) e f v = Inv-if p.stopping (back_to_wait-Inv p i w t e f v) (
    changed-Inv p i w (record { phase = running u; deferred_task = none }) p.busy_workers p.tasks e
      (ground arith) (λ _. refl) v)

-- A worker that has run a task keeps the count of busy workers right.
pub finish-Inv : (p p' : ThreadPool) (i : ℕ) (t : Task) → finish i p ≡ some (t, p') → Inv p → Inv p'
finish-Inv p p' i t h v =
    let (w, e, f, same) = finish_cases p p' i t h in
    subst Inv (sym same) (finish_at-Inv p i w t w.deferred_task e f v)

-- A thread calls operator() from within a task, or is none of the workers.
abbrev pub IsCaller : Option ℕ → ThreadPool → Type 0
IsCaller none p = Unit {0}
IsCaller (some i) p =
    (w : Worker) × (t : Task) × (get_elem? p.workers i ≡ some w) × (w.phase ≡ running t)

enqueue-Inv : (p : ThreadPool) (f : Task) → Inv p → Inv (enqueue f p).0
unfolding enqueue
enqueue-Inv p f v = record { counted = v.counted; tidy = v.tidy }

defer-Inv :
    (p : ThreadPool) (i : ℕ) (w : Worker) (t f : Task)
    → get_elem? p.workers i ≡ some w
    → w.phase ≡ running t
    → Inv p
    → Inv (changed i (record w { deferred_task = some f }) p.busy_workers p.tasks p)
defer-Inv p i w t f e run v =
    changed-Inv p i w (record w { deferred_task = some f }) p.busy_workers p.tasks e refl
      (λ z. absurd (ground arith)) v

submit_inside-Inv :
    (p : ThreadPool) (i : ℕ) (w : Worker) (kind : ExecutionKind) (t f : Task)
    → get_elem? p.workers i ≡ some w
    → w.phase ≡ running t
    → Inv p
    → Inv (submit_inside i w kind f p).0
unfolding submit_inside
submit_inside-Inv p i w dispatch t f e run v = v
submit_inside-Inv p i w post t f e run v = enqueue-Inv p f v
submit_inside-Inv p i w defer t f e run v = elim (Option-cases w.deferred_task) [
  | inl o ↦ rw (o, submit_inside) (defer-Inv p i w t f e run v)
  | inr (u, o) ↦ rw (o, submit_inside) (enqueue-Inv p f v)
]

pub submit-Inv :
    (p : ThreadPool) (caller : Option ℕ) (kind : ExecutionKind) (f : Task)
    → IsCaller caller p
    → Inv p
    → Inv (submit caller kind f p).0
unfolding submit
submit-Inv p none kind f c v = elim (Bool-cases p.stopping) [
  | inl st ↦ simp st v
  | inr go ↦ simp go (enqueue-Inv p f v)
]
submit-Inv p (some i) kind f (w, t, e, run) v = elim (Bool-cases p.stopping) [
  | inl st ↦ simp st v
  | inr go ↦ simp (go, e) (submit_inside-Inv p i w kind t f e run v)
]

-- Where operator() puts a task into the queue while some worker waits, it notifies one.
pub submit-notify :
    (p : ThreadPool) (caller : Option ℕ) (kind : ExecutionKind) (f : Task) (i : ℕ) (w : Worker)
    (note : Bool)
    → Inv p
    → get_elem? p.workers i ≡ some w
    → w.phase ≡ waiting
    → (submit caller kind f p).1 ≡ queued note
    → note ≡ true
unfolding submit submit_inside enqueue
submit-notify p caller kind f i w note v e wait h =
    ground (arith, running_count-lt p.workers i w e wait, v.counted)

running_count-replicate :
    (n : ℕ) → running_count (replicate n (record { phase = waiting; deferred_task = none })) ≡ 0
unfolding running_count
running_count-replicate zero = refl
running_count-replicate (suc n) = omega (arith, running_count-replicate n)

start-AllTidy : (n : ℕ) → AllTidy (replicate n (record { phase = waiting; deferred_task = none }))
start-AllTidy zero = tt
start-AllTidy (suc n) = (λ _. refl, start-AllTidy n)

pub start-Inv : (threads : ℕ) → Inv (start threads)
unfolding start
start-Inv threads = record {
  counted = sym (running_count-replicate threads);
  tidy = start-AllTidy threads;
}
