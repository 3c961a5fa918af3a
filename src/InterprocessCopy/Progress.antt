-- ===== src/InterprocessCopy/Progress.antt =====
-- interprocess-copy/src/main.cpp: the two processes never wait for one another.
use cosec_examples.Prelude.{
  ℕ, ◌≤◌, ◌≡◌, ◌≢◌, refl, ap, ◌⊎◌, inl, inr, List, [], ◌∷◌, ◌++◌, length, take, arith,
  length-append,
}
use cosec_examples.InterprocessCopy.{
  Bytes, Op, shared_memory, pipe, vm_write, request, between, parent_ended, receiving, child_ended,
  System, piped, Step, iteration, quit, pipe_in, woken, asked, pipe_out, Forked, Reaches,
}
use cosec_examples.InterprocessCopy.Modes.{
  Mode, idle, asked_shared, asked_pipe, asked_vm, transfer, answered, quitting, over,
  length-take_le,
}
use cosec_examples.InterprocessCopy.Steps.{Reaches-Together}

-- Both have ended, or one can go on.
abbrev pub GoesOn : ℕ → System → Type 0
GoesOn capacity s =
    ((s.parent ≡ parent_ended) × (s.child ≡ child_ended)) ⊎ ((t : System) × Step capacity s t)

request_pos : (op : Op) (n : ℕ) → 1 ≤ request op n
unfolding request
request_pos shared_memory n = omega arith
request_pos pipe n = omega arith
request_pos vm_write n = omega arith

module _ (capacity : ℕ) (room : 1 ≤ capacity) where
  iterations_left :
      (s : System) (l : List (Op × ℕ)) → s.iterations ≡ l → s.parent ≡ between → GoesOn capacity s
  iterations_left s [] i p = inr (_, quit p i)
  iterations_left s ((op, n) ∷ rest) i p = inr (_, iteration p i)

  -- A byte gets out of the pipe, or one gets into it.
  bytes_left :
      (s : System) (n : ℕ) (got rest in_pipe : Bytes)
      → n ≤ length s.parent_data
      → s.in_pipe ≡ in_pipe
      → s.parent ≡ piped n rest
      → s.child ≡ receiving n (length got)
      → got ++ (in_pipe ++ rest) ≡ take n s.parent_data
      → length got ≢ n
      → GoesOn capacity s
  unfolding piped
  bytes_left s n got rest (b ∷ bs) le i p c all ne = inr (
    _,
    pipe_out (b ∷ []) bs c i (omega arith) (
        omega (
          arith,
          ap length all,
          length-append got (b ∷ (bs ++ rest)),
          length-take_le n s.parent_data le,
        )),
  )
  bytes_left s n got [] [] le i p c all ne =
      absurd
        (ne (omega (arith, ap length all, length-append got [], length-take_le n s.parent_data le)))
  bytes_left s n got (b ∷ bs) [] le i p c all ne =
      inr (_, pipe_in (b ∷ []) bs p (omega arith) (omega (arith, ap length i, room)))

  Mode-GoesOn : (s : System) → Mode s → GoesOn capacity s
  Mode-GoesOn s (idle p _ _ _ _) = iterations_left s s.iterations refl p
  Mode-GoesOn s (asked_shared n _ _ c e _ _ _) =
      inr (_, asked c (omega (arith, e, request_pos shared_memory n)))
  Mode-GoesOn s (asked_pipe n _ _ _ c e _ _) =
      inr (_, asked c (omega (arith, e, request_pos pipe n)))
  Mode-GoesOn s (asked_vm n _ _ c e _ _ _) =
      inr (_, asked c (omega (arith, e, request_pos vm_write n)))
  Mode-GoesOn s (transfer n got rest le p c _ _ _ all ne) =
      bytes_left s n got rest s.in_pipe le refl p c all ne
  Mode-GoesOn s (answered n p _ _ a _ _) = inr (_, woken p (omega (arith, a)))
  Mode-GoesOn s (quitting p c e) = inr (_, asked c (omega (arith, e)))
  Mode-GoesOn s (over p c) = inl (p, c)

-- From the fork on, if the pipe holds a byte or more, there is no deadlock, though a write to a full pipe blocks:
-- both processes have ended, or one can take a step.
pub Reaches-GoesOn :
    (capacity : ℕ) (s t : System)
    → 1 ≤ capacity
    → Forked s
    → Reaches capacity s t
    → GoesOn capacity t
Reaches-GoesOn capacity s t room f r = Mode-GoesOn capacity room t (Reaches-Together s t f r).mode
