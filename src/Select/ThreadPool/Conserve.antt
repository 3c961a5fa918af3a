-- ===== src/Select/ThreadPool/Conserve.antt =====
-- select/src/thread_pool.cpp: no task is lost or run twice while the pool is not stopping.
use cosec_examples.Prelude.{
  ℕ, zero, suc, ◌+◌, ◌≤◌, ◌≡◌, refl, ◌∙◌, false, Option, none, some, List, [], ◌∷◌, ◌++◌, ◌==◌,
  if◌then◌else◌, get_elem?, set, replicate, arith, inl, inr, Option-cases,
}
use cosec_examples.Select.ThreadPool.{
  Task, ExecutionKind, dispatch, post, defer, Phase, waiting, running, exited, Worker, ThreadPool,
  start, wake, wake_at, finish, finish_at, back_to_wait, Submitted, refused, called, deferred,
  queued, enqueue, submit, submit_inside,
}
use cosec_examples.Select.ThreadPool.Invariant.{
  Inv, IsCaller, wake_cases, finish_cases, wake-Inv, finish-Inv, submit-Inv, start-Inv,
}

abbrev pub once : Task → Task → ℕ
once t u = if t == u then 1 else 0

pub count : Task → List Task → ℕ
count t [] = 0
count t (u ∷ us) = once t u + count t us

abbrev count_option : Task → Option Task → ℕ
count_option t none = 0
count_option t (some u) = once t u

abbrev count_phase : Task → Phase → ℕ
count_phase t waiting = 0
count_phase t (running u) = once t u
count_phase t exited = 0

abbrev count_worker : Task → Worker → ℕ
count_worker t w = count_phase t w.phase + count_option t w.deferred_task

pub count_workers : Task → List Worker → ℕ
count_workers t [] = 0
count_workers t (w ∷ ws) = count_worker t w + count_workers t ws

-- How often a task is in the pool: queued, under way or deferred.
abbrev pub holds : Task → ThreadPool → ℕ
holds t p = count t p.tasks + count_workers t p.workers

count-append : (t : Task) (xs ys : List Task) → count t (xs ++ ys) ≡ count t xs + count t ys
unfolding count
count-append t [] ys = omega arith
count-append t (x ∷ xs) ys = omega (arith, count-append t xs ys)

count_workers-set :
    (t : Task) (ws : List Worker) (i : ℕ) (w w' : Worker)
    → get_elem? ws i ≡ some w
    → count_workers t (set ws i w') + count_worker t w ≡ count_workers t ws + count_worker t w'
unfolding count_workers
count_workers-set t [] i w w' h = cc
count_workers-set t (x ∷ ws) zero w w' h = ground arith
count_workers-set t (x ∷ ws) (suc i) w w' h = omega (arith, count_workers-set t ws i w w' h)

holds-wake_at :
    (t : Task) (p p' : ThreadPool) (i : ℕ) (w : Worker) (ts : List Task)
    → p.stopping ≡ false
    → p.tasks ≡ ts
    → get_elem? p.workers i ≡ some w
    → w.phase ≡ waiting
    → wake_at i w ts p ≡ some p'
    → holds t p' ≡ holds t p
unfolding wake_at count
holds-wake_at t p p' i w [] run q e f h = ground arith
holds-wake_at t p p' i w (u ∷ ts) run q e f h =
    ground (arith, count_workers-set t p.workers i w (record w { phase = running u }) e)

holds-wake :
    (t : Task) (p p' : ThreadPool) (i : ℕ)
    → p.stopping ≡ false
    → wake i p ≡ some p'
    → holds t p' ≡ holds t p
holds-wake t p p' i run h =
    let (w, e, f, h') = wake_cases p p' i h in holds-wake_at t p p' i w p.tasks run refl e f h'

-- A task that returns is in the pool no more, and the deferred task takes its place.
holds-finish :
    (t u : Task) (p p' : ThreadPool) (i : ℕ)
    → p.stopping ≡ false
    → finish i p ≡ some (u, p')
    → holds t p' + once t u ≡ holds t p
unfolding finish_at back_to_wait
holds-finish t u p p' i run h =
    let (w, e, f, same) = finish_cases p p' i u h in
    elim (Option-cases w.deferred_task) [
      | inl o ↦ ground (
        arith,
        same,
        o,
        f,
        count_workers-set t p.workers i w (record { phase = waiting; deferred_task = none }) e,
      )
      | inr (d, o) ↦ ground (
        arith,
        same,
        o,
        f,
        count_workers-set t p.workers i w (record { phase = running d; deferred_task = none }) e,
      )
    ]

abbrev pub accepts : Submitted → ℕ
accepts refused = 0
accepts called = 0
accepts deferred = 1
accepts (queued note) = 1

holds-submit_inside :
    (t f : Task) (p : ThreadPool) (i : ℕ) (w : Worker) (kind : ExecutionKind)
    → get_elem? p.workers i ≡ some w
    → holds t (submit_inside i w kind f p).0
      ≡ holds t p + (if t == f then accepts (submit_inside i w kind f p).1 else 0)
unfolding submit_inside enqueue count
holds-submit_inside t f p i w dispatch e = ground arith
holds-submit_inside t f p i w post e = ground (arith, count-append t p.tasks (f ∷ []))
holds-submit_inside t f p i w defer e = elim (Option-cases w.deferred_task) [
  | inl o ↦
      ground (arith, o, count_workers-set t p.workers i w (record w { deferred_task = some f }) e)
  | inr (d, o) ↦ ground (arith, o, count-append t p.tasks (f ∷ []))
]

holds-submit :
    (t f : Task) (p : ThreadPool) (caller : Option ℕ) (kind : ExecutionKind)
    → holds t (submit caller kind f p).0
      ≡ holds t p + (if t == f then accepts (submit caller kind f p).1 else 0)
unfolding submit enqueue count
holds-submit t f p none kind = ground (arith, count-append t p.tasks (f ∷ []))
holds-submit t f p (some i) kind = elim (Option-cases (get_elem? p.workers i)) [
  | inl o ↦ ground (arith, o, count-append t p.tasks (f ∷ []))
  | inr (w, o) ↦ ground (arith, o, holds-submit_inside t f p i w kind o)
]

-- A pool, the tasks that operator() has put into it, and those that have returned from a worker.
pub record Traced : Type 0 where
  pub pool : ThreadPool
  pub accepted : List Task
  pub finished : List Task

abbrev pub log : ℕ → Task → List Task → List Task
log n f ts = if n == 0 then ts else f ∷ ts

-- The steps of the pool while nobody stops it.
pub data Step (s : Traced) : Traced → Type 0 where
  wakes : (i : ℕ) (p' : ThreadPool) → wake i s.pool ≡ some p' → Step s (record s { pool = p' })
  finishes :
      (i : ℕ) (u : Task) (p' : ThreadPool)
      → finish i s.pool ≡ some (u, p')
      → Step s (record s { pool = p'; finished = u ∷ s.finished })
  submits :
      (caller : Option ℕ) (kind : ExecutionKind) (f : Task)
      → IsCaller caller s.pool
      → Step s (record s {
        pool = (submit caller kind f s.pool).0;
        accepted = log (accepts (submit caller kind f s.pool).1) f s.accepted;
      })

pub data Reach (threads : ℕ) : Traced → Type 0 where
  here : Reach threads (record { pool = start threads; accepted = []; finished = [] })
  next : {s s' : Traced} → Reach threads s → Step s s' → Reach threads s'

abbrev pub Balanced : Traced → Type 0
Balanced s =
    (s.pool.stopping ≡ false)
    × Inv s.pool
    × ((t : Task) → count t s.accepted ≡ holds t s.pool + count t s.finished)

stopping-wake_at :
    (p p' : ThreadPool) (i : ℕ) (w : Worker) (ts : List Task)
    → wake_at i w ts p ≡ some p'
    → p'.stopping ≡ p.stopping
unfolding wake_at
stopping-wake_at p p' i w [] h = ground arith
stopping-wake_at p p' i w (t ∷ ts) h = ground arith

stopping-finish_at :
    (p : ThreadPool) (i : ℕ) (o : Option Task) → (finish_at i o p).stopping ≡ p.stopping
unfolding finish_at back_to_wait
stopping-finish_at p i none = refl
stopping-finish_at p i (some t) = ground arith

stopping-wake : (p p' : ThreadPool) (i : ℕ) → wake i p ≡ some p' → p'.stopping ≡ p.stopping
stopping-wake p p' i h =
    let (w, e, f, h') = wake_cases p p' i h in stopping-wake_at p p' i w p.tasks h'

stopping-finish :
    (p p' : ThreadPool) (i : ℕ) (u : Task) → finish i p ≡ some (u, p') → p'.stopping ≡ p.stopping
stopping-finish p p' i u h =
    let (w, e, f, same) = finish_cases p p' i u h in
    ground (arith, same, stopping-finish_at p i w.deferred_task)

stopping-submit :
    (p : ThreadPool) (caller : Option ℕ) (kind : ExecutionKind) (f : Task)
    → (submit caller kind f p).0.stopping ≡ p.stopping
unfolding submit submit_inside enqueue
stopping-submit p none kind f = ground arith
stopping-submit p (some i) dispatch f = ground arith
stopping-submit p (some i) post f = ground arith
stopping-submit p (some i) defer f = ground arith

accepts-le : (o : Submitted) → accepts o ≤ 1
accepts-le refused = omega arith
accepts-le called = omega arith
accepts-le deferred = omega arith
accepts-le (queued note) = omega arith

count-log :
    (t f : Task) (n : ℕ) (ts : List Task)
    → n ≤ 1
    → count t (log n f ts) ≡ count t ts + (if t == f then n else 0)
unfolding count
count-log t f n ts h = ground arith

Step-Balanced : {s s' : Traced} → Step s s' → Balanced s → Balanced s'
unfolding count
Step-Balanced {s} (wakes i p' h) b = (
  stopping-wake s.pool p' i h ∙ b.0,
  wake-Inv s.pool p' i h b.1,
  λ t. ground (arith, b.2 t, holds-wake t s.pool p' i b.0 h),
)
Step-Balanced {s} (finishes i u p' h) b = (
  stopping-finish s.pool p' i u h ∙ b.0,
  finish-Inv s.pool p' i u h b.1,
  λ t. ground (arith, b.2 t, holds-finish t u s.pool p' i b.0 h),
)
Step-Balanced {s} (submits caller kind f c) b = (
  stopping-submit s.pool caller kind f ∙ b.0,
  submit-Inv s.pool caller kind f c b.1,
  λ t. ground (
    arith,
    b.2 t,
    holds-submit t f s.pool caller kind,
    count-log t f (accepts (submit caller kind f s.pool).1) s.accepted,
    accepts-le (submit caller kind f s.pool).1,
  ),
)

count_workers-replicate :
    (t : Task) (n : ℕ)
    → count_workers t (replicate n (record { phase = waiting; deferred_task = none })) ≡ 0
unfolding count_workers
count_workers-replicate t zero = refl
count_workers-replicate t (suc n) = omega (arith, count_workers-replicate t n)

-- While nobody stops the pool, a task has been put into it as often as it is in it now, queued, under
-- way or deferred, and has returned from a worker; and the count of busy workers is right.
pub Reach-Balanced : {threads : ℕ} {s : Traced} → Reach threads s → Balanced s
unfolding start count
Reach-Balanced {threads} here =
    (refl, start-Inv threads, λ t. omega (arith, count_workers-replicate t threads))
Reach-Balanced (next r st) = Step-Balanced st (Reach-Balanced r)
