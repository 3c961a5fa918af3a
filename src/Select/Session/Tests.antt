-- ===== src/Select/Session/Tests.antt =====
-- Runs of a session whose numbers are single digits.
use cosec_examples.Prelude.{
  ℕ, suc, ◌+◌, ◌-◌, ◌*◌, ◌≤◌, ◌<◌, ◌≡◌, refl, true, false, Option, none, some, [], ◌∷◌, ◌++◌,
  length, arith, leb, ◌&&◌, if◌then◌else◌, replicate, length-replicate, ap, zero,
}
use cosec_examples.Select.ReadUntil.{
  Bytes, index_of, match_len, room, grown, read_more, async_read_until_impl, read_completed,
}
use cosec_examples.Select.Session.{
  BigInt, Session, reading, closed, overrun, crashed, newline, max_length, read_done, read_error,
  wrote, step, step_in, accepted, start, on_a, on_b, on_number, on_read, read_until,
  read_buffered_number, reply, c_string, erase, close, failed, awaiting, written, read_some,
  write_some, stale_read_fails, chunk_of, Reaches, accept, completes,
}
use cosec_examples.Select.Session.Lines.{lines}
use cosec_examples.Select.Session.Answers.{answers}
use cosec_examples.Select.Session.Steps.{Reaches-answers, reading-answers}
use cosec_examples.Select.Session.Room.{Reaches-bounds}
use cosec_examples.Select.Session.Overrun.{read_done-crashed}

abbrev digit : Bytes → Option ℕ
digit (b ∷ []) = if leb 48 b && leb b 57 then some (b - 48) else none
digit bs = none

abbrev digits : BigInt ℕ
digits = record { nought = 0; parse = digit; multiply = λ x y. x * y; str = λ n. (n + 48) ∷ [] }

abbrev doubled : ℕ → ℕ
doubled c = suc (c + c)

doubled-grows : (c : ℕ) → c < doubled c
doubled-grows c = omega arith

-- "2\n3", which is half of a request and the rest of it without its end.
abbrev half : Bytes
half = 50 ∷ 10 ∷ 51 ∷ []

abbrev waits : Session ℕ
waits = record {
  in_buf = record { bytes = 51 ∷ []; capacity = 15; max_size = 1024 };
  searched = 1;
  a = 2;
  reading_b = true;
  phase = reading 14;
  sent = [];
}

Reaches-waits : Reaches digits doubled 15 waits half
unfolding accepted start read_until on_read async_read_until_impl read_completed match_len index_of
    room grown read_more step step_in on_number on_a on_b read_buffered_number c_string erase close
    awaiting failed chunk_of
Reaches-waits = completes {e = read_done half} accept (read_some (omega arith))

Reaches-answers_example : (more : Bytes) × (answers digits (lines half) ≡ [] ++ more)
Reaches-answers_example = Reaches-answers digits doubled 15 waits half Reaches-waits

abbrev answered : Session ℕ
answered = record {
  in_buf = record { bytes = []; capacity = 15; max_size = 1024 };
  searched = 0;
  a = 2;
  reading_b = false;
  phase = reading 15;
  sent = 54 ∷ 10 ∷ [];
}

-- The rest of the request, and the reply's way out.
Reaches-answered : Reaches digits doubled 15 answered (half ++ 10 ∷ [])
unfolding accepted start read_until on_read async_read_until_impl read_completed match_len index_of
    room grown read_more step step_in on_number on_a on_b read_buffered_number c_string erase close
    awaiting failed chunk_of written reply
Reaches-answered =
    completes {e = wrote 2}
      (completes {e = read_done (10 ∷ [])} Reaches-waits (read_some (omega arith)))
      (write_some (omega arith))

reading-answers_example : answered.sent ≡ answers digits (lines (half ++ 10 ∷ []))
reading-answers_example =
    reading-answers digits doubled 15 answered 15 (half ++ 10 ∷ []) Reaches-answered refl

Reaches-bounds_example :
    (length waits.in_buf.bytes ≤ max_length)
    × ((len : ℕ)
        → waits.phase ≡ reading len
        → (1 ≤ len)
          × (length waits.in_buf.bytes + len ≤ max_length)
          × (length waits.in_buf.bytes + len ≤ waits.in_buf.capacity))
Reaches-bounds_example = Reaches-bounds digits doubled doubled-grows 15 waits half Reaches-waits

-- A new session of a string with room for the whole limit.
abbrev empty : Session ℕ
empty = record {
  in_buf = record { bytes = []; capacity = 1024; max_size = 1024 };
  searched = 0;
  a = 0;
  reading_b = false;
  phase = reading 1024;
  sent = [];
}

Reaches-empty : Reaches digits doubled 1024 empty []
unfolding accepted start read_until on_read async_read_until_impl read_completed match_len index_of
    room grown read_more step step_in on_number on_a on_b read_buffered_number c_string erase close
    awaiting failed
Reaches-empty = accept

zeros_clean : (n : ℕ) → index_of newline (replicate n 48) ≡ none
unfolding index_of
zeros_clean zero = refl
zeros_clean (suc n) = rw (zeros_clean n) refl

read_done-crashed_example :
    ((step digits doubled empty (read_done (48 ∷ replicate 1023 48))).phase ≡ overrun)
    × ((step digits doubled
          (step digits doubled empty (read_done (48 ∷ replicate 1023 48)))
          read_error).phase
        ≡ crashed)
read_done-crashed_example =
    read_done-crashed digits doubled doubled-grows 1024 empty [] 1024 48 (replicate 1023 48)
      read_error Reaches-empty refl (zeros_clean 1024) (ap suc (length-replicate {A = ℕ} 1023 48))
      stale_read_fails

-- A line that is no number ends the session.
closes : (step digits doubled empty (read_done (48 ∷ 48 ∷ 10 ∷ []))).phase ≡ closed
unfolding accepted start read_until on_read async_read_until_impl read_completed match_len index_of
    room grown read_more step step_in on_number on_a on_b read_buffered_number c_string erase close
    awaiting failed
closes = refl
