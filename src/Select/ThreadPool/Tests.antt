-- ===== src/Select/ThreadPool/Tests.antt =====
-- select/src/thread_pool.cpp: a pool of two threads.
use cosec_examples.Prelude.{refl, true, false, none, some, [], ◌∷◌}
use cosec_examples.Select.ThreadPool.{
  exited, post, defer, waiting, running, Worker, ThreadPool, start, wake, wake_at, finish,
  finish_at, enqueue, submit, submit_inside,
}
use cosec_examples.Select.ThreadPool.Conserve.{
  Traced, Reach, Balanced, wakes, finishes, submits, here, next, Reach-Balanced,
}

abbrev idle : Worker
idle = record { phase = waiting; deferred_task = none }

-- Task 7 has been posted, has run on the first worker, and has deferred task 8, which runs there.
abbrev history : Traced
history = record {
  pool = record {
    workers = record { phase = running 8; deferred_task = none } ∷ idle ∷ [];
    tasks = [];
    busy_workers = 1;
    stopping = false;
  };
  accepted = 8 ∷ 7 ∷ [];
  finished = 7 ∷ [];
}

history-Reach : Reach 2 history
unfolding start wake wake_at finish finish_at submit submit_inside enqueue
history-Reach =
    next
      (next (next (next here (submits none post 7 tt)) (wakes 0 _ refl)) (
        submits (some 0) defer 8
          (record { phase = running 7; deferred_task = none }, 7, refl, refl)))
      (finishes 0 7 _ refl)

Reach-Balanced_example : Balanced history
Reach-Balanced_example = Reach-Balanced history-Reach

abbrev posted : ThreadPool
posted = record { workers = idle ∷ idle ∷ []; tasks = 7 ∷ []; busy_workers = 0; stopping = false }

abbrev joined : ThreadPool
joined = record posted { stopping = true }

abbrev one_left : ThreadPool
one_left = record joined { workers = record { phase = exited; deferred_task = none } ∷ idle ∷ [] }
