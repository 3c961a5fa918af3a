-- ===== src/InterprocessCopy/Tests.antt =====
-- interprocess-copy/src/main.cpp: two bytes go through the pipe, one at a time.
use cosec_examples.Prelude.{◌≡◌, refl, [], ◌∷◌, take, arith}
use cosec_examples.InterprocessCopy.{
  pipe, between, listening, System, request, length_of, op_of, put_at, piped, iterate, answer,
  receive, dispatch, iteration, pipe_in, asked, pipe_out, no_more, one_more, Forked, Reaches, here,
  further,
}
use cosec_examples.InterprocessCopy.Steps.{Reaches-woken}
use cosec_examples.InterprocessCopy.Progress.{GoesOn, Reaches-GoesOn}

abbrev forked : System
forked = record {
  parent_data = 7 ∷ 8 ∷ 9 ∷ [];
  child_data = 0 ∷ 0 ∷ 5 ∷ [];
  mapping = 0 ∷ 0 ∷ 0 ∷ [];
  in_pipe = [];
  event_to_child = 0;
  event_to_parent = 0;
  parent = between;
  child = listening;
  iterations = (pipe, 2) ∷ [];
}

forked-Forked : Forked forked
forked-Forked = record {
  no_pipe = refl;
  no_request = refl;
  no_answer = refl;
  parent_starts = refl;
  child_starts = refl;
  lengths = one_more (omega arith) no_more;
  small = omega arith;
}

-- The parent has asked, and the first byte is in the pipe.
abbrev one_byte : System
one_byte = record (iterate pipe 2 (record forked { iterations = [] })) {
  in_pipe = 7 ∷ [];
  parent = piped 2 (8 ∷ []);
}

abbrev listens : System
listens = dispatch one_byte.event_to_child (record one_byte { event_to_child = 0 })

abbrev first_read : System
first_read =
    receive 2 1 (record listens { in_pipe = []; child_data = put_at 0 (7 ∷ []) listens.child_data })

abbrev two_bytes : System
two_bytes = record first_read { in_pipe = 8 ∷ []; parent = piped 2 [] }

abbrev all_read : System
all_read =
    receive 2 2
      (record two_bytes { in_pipe = []; child_data = put_at 1 (8 ∷ []) two_bytes.child_data })

to_one_byte : Reaches 1 forked one_byte
unfolding iterate piped request
to_one_byte =
    further (further here (iteration refl refl))
      (pipe_in (7 ∷ []) (8 ∷ []) refl (omega arith) (omega arith))

to_all_read : Reaches 1 forked all_read
unfolding iterate piped request dispatch length_of op_of receive answer put_at
to_all_read =
    further
      (further
        (further (further to_one_byte (asked refl (omega arith)))
          (pipe_out (7 ∷ []) [] refl refl (omega arith) (omega arith)))
        (pipe_in (8 ∷ []) [] refl (omega arith) (omega arith)))
      (pipe_out (8 ∷ []) [] refl refl (omega arith) (omega arith))

Reaches-woken_example :
    (all_read.child ≡ listening)
    × (all_read.event_to_child ≡ 0)
    × (all_read.in_pipe ≡ [])
    × (take 2 all_read.child_data ≡ take 2 all_read.parent_data)
unfolding iterate piped request dispatch length_of op_of receive answer put_at
Reaches-woken_example = Reaches-woken forked all_read 2 forked-Forked to_all_read refl (omega arith)

Reaches-GoesOn_example : GoesOn 1 one_byte
Reaches-GoesOn_example = Reaches-GoesOn 1 forked one_byte (omega arith) forked-Forked to_one_byte
