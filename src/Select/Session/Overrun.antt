-- ===== src/Select/Session/Overrun.antt =====
-- select/src/main.cpp, composite_async_ops.hpp: a line that is longer than the input buffer.
use cosec_examples.Prelude.{ℕ, ◌+◌, ◌<◌, ◌≡◌, sym, ◌∙◌, ap, none, ◌∷◌, ◌++◌, length, length-append}
use cosec_examples.Select.ReadUntil.{Bytes, index_of, read_completed}
use cosec_examples.Select.Session.{
  newline, max_length, BigInt, Session, Event, read_done, read_error, reading, overrun, crashed,
  on_number, step, step_in, on_read, Completes, stale_read, stale_read_fails, Reaches,
}
use cosec_examples.Select.Session.Found.{overrunning, match_len-none, impl-none, on_read-full}
use cosec_examples.Select.Session.Served.{Owes, first, second, replying, ended}
use cosec_examples.Select.Session.Steps.{reached-Owes}
use cosec_examples.Select.Session.Room.{reached-Fits}

module _ {N : Type 0} (big : BigInt N) (grow : ℕ → ℕ) where
  Owes-clean :
      (s : Session N) (len : ℕ) (owed : Bytes → Bytes)
      → s.phase ≡ reading len
      → Owes big s owed
      → (index_of newline s.in_buf.bytes ≡ none) × (s.searched ≡ length s.in_buf.bytes)
  Owes-clean s len owed h (first _ _ _ clean searched _) = (clean, searched)
  Owes-clean s len owed h (second _ _ _ clean searched _) = (clean, searched)
  Owes-clean s len owed h (replying rest q o) = absurd (cc)
  Owes-clean s len owed h (ended f g o) = absurd (f len h)

  filled :
      (s : Session N) (len c : ℕ) (cs : Bytes)
      → s.phase ≡ reading len
      → s.searched ≡ length s.in_buf.bytes
      → index_of newline (c ∷ cs) ≡ none
      → length (s.in_buf.bytes ++ c ∷ cs) ≡ s.in_buf.max_size
      → (step big grow s (read_done (c ∷ cs))).phase ≡ overrun
  unfolding step step_in overrunning read_completed on_read
  filled s len c cs h searched clean full =
      let r = record s { in_buf = record s.in_buf { bytes = s.in_buf.bytes ++ c ∷ cs } } in
      ap (λ p. (step_in big grow p s (read_done (c ∷ cs))).phase) h
      ∙ ap (λ q. q.phase)
          (ap (on_read (on_number big grow) r) (
              impl-none grow (on_number big grow) r
                (rw searched (match_len-none newline s.in_buf.bytes (c ∷ cs) clean)))
            ∙ on_read-full grow (on_number big grow) r full)

  stale :
      (s : Session N) (e : Event)
      → s.phase ≡ overrun
      → Completes overrun e
      → (step big grow s e).phase ≡ crashed
  unfolding step step_in
  stale s _ h (stale_read {chunk}) = ap (λ p. (step_in big grow p s (read_done chunk)).phase) h
  stale s _ h stale_read_fails = ap (λ p. (step_in big grow p s read_error).phase) h

  -- When the buffer's growth strategy grows it, and a session that waits for bytes gets some that have no
  -- newline and fill the input buffer to its 1024 bytes, the exception is given to the handler and a read
  -- is started all the same; any completion of that read calls the handler that was moved from.
  pub read_done-crashed :
      ((c : ℕ) → c < grow c)
      → (capacity : ℕ) (s : Session N) (received : Bytes) (len c : ℕ) (cs : Bytes) (e : Event)
      → Reaches big grow capacity s received
      → s.phase ≡ reading len
      → index_of newline (c ∷ cs) ≡ none
      → length s.in_buf.bytes + length (c ∷ cs) ≡ max_length
      → Completes overrun e
      → ((step big grow s (read_done (c ∷ cs))).phase ≡ overrun)
        × ((step big grow (step big grow s (read_done (c ∷ cs))) e).phase ≡ crashed)
  read_done-crashed grows capacity s received len c cs e r h clean full done =
      let (_, searched) = Owes-clean s len _ h (reached-Owes big grow capacity s received r) in
      let fits = reached-Fits big grow grows capacity s received r in
      let over =
        filled s len c cs h searched clean
          (length-append s.in_buf.bytes (c ∷ cs) ∙ full ∙ sym fits.bounded.limit) in
      (over, stale (step big grow s (read_done (c ∷ cs))) e over done)
