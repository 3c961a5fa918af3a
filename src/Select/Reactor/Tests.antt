-- ===== src/Select/Reactor/Tests.antt =====
-- select/src/select_reactor.cpp: a reactor whose pipe is fd 3, with handlers on 5 and 7.
use cosec_examples.Prelude.{
  ◌≤◌, ◌≡◌, refl, subst, Bool, true, false, none, some, List, [], ◌∷◌, ◌==◌, ◌||◌, length, arith,
}
use cosec_examples.Select.Reactor.{
  Fd, Task, read, Reactor, invalid_mask, Result, ok, insert, erase, removed, rounds, register,
  handle, close, drain, bytes, selected, again, raised, next_of, iterate, init, empty_side, put,
  ready,
}
use cosec_examples.Select.Reactor.Sides.{Inv, init-Inv, handle-Inv}
use cosec_examples.Select.Reactor.Dispatch.{bits, lowest, serve}
use cosec_examples.Select.Reactor.Run.{StillSet, chosen, iterate-serve, iterate-Inv, iterate-close}

abbrev fds : Fd → Fd → Bool
fds a i = i == 3 || i == a

abbrev serving : Reactor
serving = record {
  pipe = 3;
  reading = record {
    events = (3, none) ∷ (5, some 50) ∷ (7, some 70) ∷ [];
    fd_set = put 7 true (put 5 true (put 3 true (λ k. false)));
  };
  writing = record { events = []; fd_set = λ k. false };
  to_be_closed = [];
  stopping = false;
}

Inv-ok :
    {o : Result (Reactor × Bool)} {x : Reactor} {w : Bool}
    → (r' : Reactor) × (wake : Bool) × (o ≡ ok (r', wake)) × Inv r'
    → o ≡ ok (x, w)
    → Inv x
Inv-ok {o} {x} (r', wake, e, v) h = let same : r' ≡ x = cc in subst Inv same v

abbrev one : Reactor
one = record {
  pipe = 3;
  reading = record {
    events = (3, none) ∷ (5, some 50) ∷ [];
    fd_set = put 5 true (put 3 true (λ k. false));
  };
  writing = record { events = []; fd_set = λ k. false };
  to_be_closed = [];
  stopping = false;
}

one-Inv : Inv one
unfolding init empty_side handle register insert
one-Inv =
    Inv-ok
      (handle-Inv (init 3) 5 read (some 50) (omega arith) (omega arith) (init-Inv 3 (omega arith)))
      refl

serving-Inv : Inv serving
unfolding handle register insert
serving-Inv = Inv-ok (handle-Inv one 7 read (some 70) (omega arith) (omega arith) one-Inv) refl

abbrev one_left : Reactor
one_left = record serving { reading = removed 5 serving.reading }

-- Both handlers could run, and one is posted.
two_ready :
    serve (chosen 8 (λ i. i == 5 || i == 7) 0 (λ i. false)) (ok tt) serving ≡ ok (one_left, 50 ∷ [])
unfolding lowest ready erase
two_ready = refl

iterate-serve_example :
    iterate 8 0 (selected 2 (λ i. i == 5 || i == 7) (λ i. false)) [] serving
    ≡ next_of (serve (chosen 8 (λ i. i == 5 || i == 7) 0 (λ i. false)) (drain []) serving)
unfolding bits
iterate-serve_example =
    iterate-serve 8 0 (λ i. i == 5 || i == 7) (λ i. false) 2 [] serving refl (omega arith) refl

five-StillSet : StillSet serving (λ i. i == 5) (λ i. false)
five-StillSet = (λ i e. ground arith, λ i e. cc)

iterate-Inv_example :
    (r' : Reactor) × (posted : List Task) × (iterate 8 0
        (selected 1 (λ i. i == 5) (λ i. false))
        []
        serving
      ≡ again r' posted)
    × Inv r'
    × (length posted ≤ 1)
unfolding bits drain
iterate-Inv_example =
    iterate-Inv 8 0 (λ i. i == 5) (λ i. false) 1 [] serving serving-Inv (omega arith) refl
      five-StillSet refl

iterate-close_example :
    iterate 8 0 (selected 1 (λ i. i == 5) (λ i. false)) [] (close 5 serving).0 ≡ raised invalid_mask
unfolding bits lowest
iterate-close_example =
    iterate-close 8 0 (λ i. i == 5) (λ i. false) 1 [] serving read 5 serving-Inv (omega arith) refl
      refl

-- Forty bytes are drained in three reads.
drains : drain (bytes 16 ∷ bytes 16 ∷ bytes 8 ∷ []) ≡ ok tt
unfolding drain
drains = refl

serving_rounds : rounds serving.reading.events ≡ 8
unfolding rounds
serving_rounds = refl
