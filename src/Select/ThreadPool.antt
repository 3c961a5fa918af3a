-- ===== src/Select/ThreadPool.antt =====
-- select/src/task.hpp, thread_pool.hpp, thread_pool.cpp: the thread pool. What a thread does with the
-- mutex held, or on its own thread-local data, is one step.
pub mod Invariant
pub mod Conserve
pub mod Abandoned
mod Tests
use cosec_examples.Prelude.{
  ℕ, suc, ◌+◌, ◌-◌, Bool, true, false, not, ◌&&◌, ◌||◌, Option, none, some, List, [], ◌∷◌, ◌++◌,
  ltb, ◌==◌, if◌then◌else◌, length, get_elem?, set, replicate,
}

-- A task, by its identity.
abbrev pub Task : Type 0
Task = ℕ

pub data ExecutionKind : Type 0 where
  dispatch post defer : ExecutionKind

-- Where the thread of a worker is: in queue_not_empty_.wait, in task(), or at its end.
pub data Phase : Type 0 where
  waiting : Phase
  running : Task → Phase
  exited : Phase

-- A worker with its thread-local `deferred_task`.
pub record Worker : Type 0 where
  pub phase : Phase
  pub deferred_task : Option Task

pub record ThreadPool : Type 0 where
  pub workers : List Worker
  pub tasks : List Task
  pub busy_workers : ℕ
  pub stopping : Bool

pub start : ℕ → ThreadPool
start threads = record {
  workers = replicate threads (record { phase = waiting; deferred_task = none });
  tasks = [];
  busy_workers = 0;
  stopping = false;
}

abbrev pub with_worker : ℕ → Worker → ThreadPool → ThreadPool
with_worker i w p = record p { workers = set p.workers i w }

-- The worker passes its wait: it ends, or takes the first task. `none`: it goes on waiting.
pub wake_at : ℕ → Worker → List Task → ThreadPool → Option ThreadPool
wake_at i w ts p =
    if p.stopping then some (with_worker i (record w { phase = exited }) p) else elim ts [
      | [] ↦ none
      | t ∷ rest ↦ some (record p {
        workers = set p.workers i (record w { phase = running t });
        tasks = rest;
        busy_workers = suc p.busy_workers;
      })
    ]

pub wake : ℕ → ThreadPool → Option ThreadPool
wake i p = elim (get_elem? p.workers i) [
  | none ↦ none
  | some w ↦ elim w.phase [ waiting ↦ wake_at i w p.tasks p | running t ↦ none | exited ↦ none ]
]

-- The end of the do loop: lock.lock(); --busy_workers_; and back to the wait.
pub back_to_wait : ℕ → ThreadPool → ThreadPool
back_to_wait i p = record p {
  workers = set p.workers i (record { phase = waiting; deferred_task = none });
  busy_workers = p.busy_workers - 1;
}

-- task() has returned: the deferred task is taken, and run unless the pool is stopping.
pub finish_at : ℕ → Option Task → ThreadPool → ThreadPool
finish_at i none p = back_to_wait i p
finish_at i (some t) p =
    if p.stopping
    then back_to_wait i p
    else with_worker i (record { phase = running t; deferred_task = none }) p

-- The task that has returned, beside the new state.
pub finish : ℕ → ThreadPool → Option (Task × ThreadPool)
finish i p = elim (get_elem? p.workers i) [
  | none ↦ none
  | some w ↦ elim w.phase [
    | waiting ↦ none
    | running t ↦ some (t, finish_at i w.deferred_task p)
    | exited ↦ none
  ]
]

-- What operator() does with the task.
pub data Submitted : Type 0 where
  refused : Submitted
  -- f() in the calling thread
  called : Submitted
  -- `deferred_task` of the calling worker
  deferred : Submitted
  -- at the end of the queue; whether queue_not_empty_.notify_one() is called
  queued : Bool → Submitted

pub enqueue : Task → ThreadPool → ThreadPool × Submitted
enqueue f p =
    (record p { tasks = p.tasks ++ f ∷ [] }, queued (ltb p.busy_workers (length p.workers)))

-- On the worker `i` of this pool.
pub submit_inside : ℕ → Worker → ExecutionKind → Task → ThreadPool → ThreadPool × Submitted
submit_inside i w dispatch f p = (p, called)
submit_inside i w post f p = enqueue f p
submit_inside i w defer f p = elim w.deferred_task [
  | none ↦ (with_worker i (record w { deferred_task = some f }) p, deferred)
  | some t ↦ enqueue f p
]

-- operator(): the caller is a worker of the pool, or another thread.
pub submit : Option ℕ → ExecutionKind → Task → ThreadPool → ThreadPool × Submitted
submit caller kind f p = if p.stopping then (p, refused) else elim caller [
  | none ↦ enqueue f p
  | some i ↦ elim (get_elem? p.workers i) [
    | none ↦ enqueue f p
    | some w ↦ submit_inside i w kind f p
  ]
]

pub stop : ThreadPool → ThreadPool
stop p = record p { tasks = []; stopping = true }

-- join() up to the joining of the threads; `none`: it waits for no_busy_workers_.
pub begin_join : ThreadPool → Option ThreadPool
begin_join p =
    if p.stopping
    then some p
    else if p.busy_workers == 0
    then some (record p { stopping = true })
    else none
