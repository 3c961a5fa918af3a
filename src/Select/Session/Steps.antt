-- ===== src/Select/Session/Steps.antt =====
-- select/src/main.cpp: what a session sends are the answers to the lines it receives, in whatever chunks.
use cosec_examples.Prelude.{
  ℕ, ◌≡◌, refl, sym, ◌∙◌, ap, subst, true, false, [], ◌∷◌, ◌++◌, append_assoc, append-nil, fun_ext,
}
use cosec_examples.Select.ReadUntil.{Bytes, read_completed, read_failed}
use cosec_examples.Select.Session.{
  BigInt, Session, Event, read_done, Phase, reading, on_a, on_b, on_number, step, step_in, close,
  on_read, failed, Completes, read_some, read_fails, write_some, write_fails, stale_read,
  stale_read_fails, chunk_of, accepted, Reaches, accept, completes,
}
use cosec_examples.Select.Session.Lines.{lines, lines-none}
use cosec_examples.Select.Session.Answers.{answers, answers_after}
use cosec_examples.Select.Session.Found.{Found, matched, unmatched, full, read_until-Found}
use cosec_examples.Select.Session.Served.{
  Owes, first, second, replying, ended, found_a, found_b, start-Owes, written-Owes,
}

module _ {N : Type 0} (big : BigInt N) where
  more_owed :
      (s : Session N) (owed : Bytes → Bytes) (t : Bytes)
      → Owes big s owed
      → (more : Bytes) × (owed t ≡ s.sent ++ more)
  more_owed s owed t (first _ _ _ _ _ o) = (_, o t)
  more_owed s owed t (second _ _ _ _ _ o) = (_, o t)
  more_owed s owed t (replying rest _ o) =
      (_, o t ∙ append_assoc s.sent rest (answers big (lines (s.in_buf.bytes ++ t))))
  more_owed s owed t (ended _ _ o) = o t

  module _ (grow : ℕ → ℕ) (owed : Bytes → Bytes) where
    abbrev received : Bytes → Session N → Session N
    received chunk s = record s { in_buf = record s.in_buf { bytes = s.in_buf.bytes ++ chunk } }

    -- The handler is that of the first or of the second number.
    number_a :
        (s r : Session N)
        → Found grow (on_number big grow) s r
        → s.reading_b ≡ false
        → Found grow (on_a big grow) s r
    unfolding on_number
    number_a s r (matched line rest split clean e) h = matched line rest split clean (e ∙ rw h refl)
    number_a s r (unmatched clean m e) h = unmatched clean m e
    number_a s r (full clean m e) h = full clean m e

    number_b :
        (s r : Session N)
        → Found grow (on_number big grow) s r
        → s.reading_b ≡ true
        → Found grow (on_b big) s r
    unfolding on_number
    number_b s r (matched line rest split clean e) h = matched line rest split clean (e ∙ rw h refl)
    number_b s r (unmatched clean m e) h = unmatched clean m e
    number_b s r (full clean m e) h = full clean m e

    read_chunk-Owes :
        (s : Session N) (len b : ℕ) (bs : Bytes)
        → s.phase ≡ reading len
        → Owes big s owed
        → Owes big (step_in big grow (reading len) s (read_done (b ∷ bs))) (λ t. owed (b ∷ bs ++ t))
    unfolding step_in read_completed on_read
    read_chunk-Owes s len b bs h (first _ _ a clean searched o) =
        let r = received (b ∷ bs) s in
        found_a big grow (λ t. owed (b ∷ bs ++ t)) r _
          (number_a r _
            (read_until-Found grow (on_number big grow) r s.in_buf.bytes (b ∷ bs) refl searched
              clean)
            a)
          a
          (λ t.
            o (b ∷ bs ++ t)
            ∙ ap (λ l. s.sent ++ answers big (lines l))
                (sym (append_assoc s.in_buf.bytes (b ∷ bs) t)))
    read_chunk-Owes s len b bs h (second _ _ a clean searched o) =
        let r = received (b ∷ bs) s in
        found_b big grow (λ t. owed (b ∷ bs ++ t)) r _
          (number_b r _
            (read_until-Found grow (on_number big grow) r s.in_buf.bytes (b ∷ bs) refl searched
              clean)
            a)
          a
          (λ t.
            o (b ∷ bs ++ t)
            ∙ ap (λ l. s.sent ++ answers_after big s.a (lines l))
                (sym (append_assoc s.in_buf.bytes (b ∷ bs) t)))
    read_chunk-Owes s len b bs h (replying rest q o) = absurd (cc)
    read_chunk-Owes s len b bs h (ended f g o) = absurd (f len h)

    step_in-Owes :
        (s : Session N) (p : Phase) (e : Event)
        → s.phase ≡ p
        → Completes p e
        → Owes big s owed
        → Owes big (step_in big grow p s e) (λ t. owed (chunk_of e ++ t))
    unfolding step_in read_completed read_failed on_read failed close chunk_of
    step_in-Owes s _ _ h (read_some {len} {chunk = []} q) o =
        ended (λ _. λ q. absurd (cc)) (λ _. λ q. absurd (cc)) (λ t. more_owed s owed t o)
    step_in-Owes s _ _ h (read_some {len} {chunk = b ∷ bs} q) o = read_chunk-Owes s len b bs h o
    step_in-Owes s _ _ h read_fails o =
        ended (λ _. λ q. absurd (cc)) (λ _. λ q. absurd (cc)) (λ t. more_owed s owed t o)
    step_in-Owes s _ _ h (write_some {rest} {n} q) (replying rest' h' o) =
        let same : rest' ≡ rest = cc in
        written-Owes big grow owed s rest n h (
          subst
            (λ w. (t : Bytes) → owed t ≡ s.sent ++ w ++ answers big (lines (s.in_buf.bytes ++ t)))
            same o)
    step_in-Owes s _ _ h (write_some {rest} {n} q) (first _ h' _ _ _ o) = absurd (cc)
    step_in-Owes s _ _ h (write_some {rest} {n} q) (second _ h' _ _ _ o) = absurd (cc)
    step_in-Owes s _ _ h (write_some {rest} {n} q) (ended f g o) = absurd (g rest h)
    step_in-Owes s _ _ h write_fails o =
        ended (λ _. λ q. absurd (cc)) (λ _. λ q. absurd (cc)) (λ t. more_owed s owed t o)
    step_in-Owes s _ _ h (stale_read {chunk}) o =
        ended (λ _. λ q. absurd (cc)) (λ _. λ q. absurd (cc)) (λ t. more_owed s owed (chunk ++ t) o)
    step_in-Owes s _ _ h stale_read_fails o =
        ended (λ _. λ q. absurd (cc)) (λ _. λ q. absurd (cc)) (λ t. more_owed s owed t o)

  module _ (grow : ℕ → ℕ) (capacity : ℕ) where
    -- What the bytes received, and bytes still to come, are answered with.
    abbrev owed_after : Bytes → Bytes → Bytes
    owed_after received t = answers big (lines (received ++ t))

    pub reached-Owes :
        (s : Session N) (received : Bytes)
        → Reaches big grow capacity s received
        → Owes big s (owed_after received)
    unfolding accepted step
    reached-Owes _ _ accept = start-Owes big grow (owed_after []) _ (λ t. refl)
    reached-Owes _ _ (completes {s} {received} {e} r c) =
        subst (λ f. Owes big (step big grow s e) f)
          (fun_ext
            (λ t. ap (λ l. answers big (lines l)) (sym (append_assoc received (chunk_of e) t))))
          (step_in-Owes grow (owed_after received) s s.phase e refl c (reached-Owes s received r))

    at_end : (received : Bytes) → answers big (lines received) ≡ owed_after received []
    at_end received = ap (λ l. answers big (lines l)) (sym (append-nil received))

    -- However the text is cut into reads, and the replies into writes, and wherever the session ends: what
    -- it has sent is the beginning of the answers to the lines received, the products of the numbers of
    -- the lines taken two by two up to the first line that is no number.
    pub Reaches-answers :
        (s : Session N) (received : Bytes)
        → Reaches big grow capacity s received
        → (more : Bytes) × (answers big (lines received) ≡ s.sent ++ more)
    Reaches-answers s received r =
        let (more, e) = more_owed s (owed_after received) [] (reached-Owes s received r) in
        (more, at_end received ∙ e)

    nothing_owed :
        (s : Session N) (len : ℕ) (received : Bytes)
        → s.phase ≡ reading len
        → Owes big s (owed_after received)
        → owed_after received [] ≡ s.sent
    unfolding answers answers_after
    nothing_owed s len received h (first _ _ _ clean _ o) =
        o [] ∙ rw (append-nil s.in_buf.bytes, lines-none s.in_buf.bytes clean) (append-nil s.sent)
    nothing_owed s len received h (second _ _ _ clean _ o) =
        o [] ∙ rw (append-nil s.in_buf.bytes, lines-none s.in_buf.bytes clean) (append-nil s.sent)
    nothing_owed s len received h (replying rest q o) = absurd (cc)
    nothing_owed s len received h (ended f g o) = absurd (f len h)

    -- When the session waits for bytes, it has sent the answers to all lines received: no pair of numbers
    -- is left in its buffer.
    pub reading-answers :
        (s : Session N) (len : ℕ) (received : Bytes)
        → Reaches big grow capacity s received
        → s.phase ≡ reading len
        → s.sent ≡ answers big (lines received)
    reading-answers s len received r h =
        sym (at_end received ∙ nothing_owed s len received h (reached-Owes s received r))
