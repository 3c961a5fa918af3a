-- ===== src/Select/ThreadPool/Abandoned.antt =====
-- select/src/thread_pool.cpp: what is left in the queue when the pool is joined.
use cosec_examples.Prelude.{ℕ, ◌≡◌, true, Option, some, List}
use cosec_examples.Select.ThreadPool.{Task, ExecutionKind, ThreadPool, wake, finish, submit}
use cosec_examples.Select.ThreadPool.Invariant.{running_count}

-- What the threads may do: a worker wakes, a task returns, or some thread calls operator().
pub data Acts (p : ThreadPool) : ThreadPool → Type 0 where
  wakes_up : (i : ℕ) (q : ThreadPool) → wake i p ≡ some q → Acts p q
  returns : (i : ℕ) (t : Task) (q : ThreadPool) → finish i p ≡ some (t, q) → Acts p q
  calls : (caller : Option ℕ) (kind : ExecutionKind) (f : Task) → Acts p (submit caller kind f p).0

pub data Later (p : ThreadPool) : ThreadPool → Type 0 where
  now : Later p p
  after : {q r : ThreadPool} → Later p q → Acts q r → Later p r

-- The pool is stopping with a queue, and no worker is in a task.
pub record Abandoned (tasks : List Task) (p : ThreadPool) : Type 0 where
  pub stops : p.stopping ≡ true
  pub queue : p.tasks ≡ tasks
  pub idle : running_count p.workers ≡ 0
