-- ===== src/Select/Session/Served.antt =====
-- select/src/main.cpp: each step of a session keeps what is sent and what is owed equal to the answers.
use cosec_examples.Prelude.{
  take-length, ℕ, suc, ◌≡◌, ◌≢◌, refl, sym, ◌∙◌, ap, subst, true, false, none, some, [], ◌∷◌, ◌++◌,
  length, take, drop, take-append-drop, append_assoc, append-nil, Option-cases, Bool-cases, ==_iff,
  ◌==◌, inl, inr, arith,
}
use cosec_examples.Select.ReadUntil.{Bytes, index_of, Buffer, grown, room}
use cosec_examples.Select.Session.{
  newline, BigInt, Session, reading, writing, read_buffered_number, reply, on_a, on_b, start,
  written, erase, close, read_until,
}
use cosec_examples.Select.Session.Lines.{lines, drop-length-suc}
use cosec_examples.Select.Session.Answers.{
  number, answers, answers_after, answers-some, answers_after-some, read_buffered_number-line,
  lines-split,
}
use cosec_examples.Select.Session.Found.{
  Found, matched, unmatched, full, read_until-Found, waiting, overrunning,
}

module _ {N : Type 0} (big : BigInt N) where
  -- What the session still has to send, when bytes are still to come; nothing is promised of a session
  -- that has ended.
  pub data Owes (s : Session N) (owed : Bytes → Bytes) : Type 0 where
    first :
        (len : ℕ)
        → s.phase ≡ reading len
        → s.reading_b ≡ false
        → index_of newline s.in_buf.bytes ≡ none
        → s.searched ≡ length s.in_buf.bytes
        → ((t : Bytes) → owed t ≡ s.sent ++ answers big (lines (s.in_buf.bytes ++ t)))
        → Owes s owed
    second :
        (len : ℕ)
        → s.phase ≡ reading len
        → s.reading_b ≡ true
        → index_of newline s.in_buf.bytes ≡ none
        → s.searched ≡ length s.in_buf.bytes
        → ((t : Bytes) → owed t ≡ s.sent ++ answers_after big s.a (lines (s.in_buf.bytes ++ t)))
        → Owes s owed
    replying :
        (rest : Bytes)
        → s.phase ≡ writing rest
        → ((t : Bytes) → owed t ≡ s.sent ++ rest ++ answers big (lines (s.in_buf.bytes ++ t)))
        → Owes s owed
    ended :
        ((len : ℕ) → s.phase ≢ reading len)
        → ((rest : Bytes) → s.phase ≢ writing rest)
        → ((t : Bytes) → (more : Bytes) × (owed t ≡ s.sent ++ more))
        → Owes s owed

  module _ (grow : ℕ → ℕ) (owed : Bytes → Bytes) where
    module _ (s : Session N) (line rest : Bytes) (split : s.in_buf.bytes ≡ line ++ newline ∷ rest)
        (clean : index_of newline line ≡ none) where
      first_number : read_buffered_number big (suc (length line)) s.in_buf.bytes ≡ number big line
      first_number = rw split (read_buffered_number-line big line rest)

      bytes-erase : (erase (suc (length line)) s).in_buf.bytes ≡ rest
      unfolding erase
      bytes-erase = ap (drop (suc (length line))) split ∙ drop-length-suc line newline rest

      on_b-none : number big line ≡ none → on_b big s (suc (length line)) ≡ close s
      unfolding on_b
      on_b-none h = ground (arith, first_number, h)

      on_b-some :
          (b : N)
          → number big line ≡ some b
          → on_b big s (suc (length line))
            ≡ record (erase (suc (length line)) s) { phase = writing (reply big s.a b) }
      unfolding on_b
      on_b-some b h = ground (arith, first_number, h)

      -- A pair whose second number comes first in the buffer is answered, or ends the session.
      on_b-Owes :
          ((t : Bytes) → owed t ≡ s.sent ++ answers_after big s.a (lines (s.in_buf.bytes ++ t)))
          → Owes (on_b big s (suc (length line))) owed
      unfolding close erase
      on_b-Owes o = elim (Option-cases (number big line)) [
        | inl h ↦
            rw (on_b-none h)
              (ended (λ len. λ q. absurd (cc)) (λ r. λ q. absurd (cc)) (λ t. (_, o t)))
        | inr (b, h) ↦ rw (on_b-some b h) (
            replying (reply big s.a b) refl (λ t.
              o t
              ∙ ap (λ l. s.sent ++ answers_after big s.a l)
                  (lines-split s.in_buf.bytes line rest t split clean)
              ∙ ap (λ l. s.sent ++ l) (answers_after-some big s.a b line (lines (rest ++ t)) h)
              ∙ sym (append_assoc s.sent (reply big s.a b) (answers big (lines (rest ++ t))))
              ∙ ap (λ r. s.sent ++ reply big s.a b ++ answers big (lines (r ++ t)))
                  (sym bytes-erase)))
      ]

    bytes-grown : (b : Buffer) → (grown grow b).bytes ≡ b.bytes
    unfolding grown
    bytes-grown b = elim (Bool-cases (length b.bytes == b.capacity)) [
      | inl e ↦ rw e refl
      | inr e ↦ rw e refl
    ]

    -- The read until the second number, wherever it leads.
    pub found_b :
        (s result : Session N)
        → Found grow (on_b big) s result
        → s.reading_b ≡ true
        → ((t : Bytes) → owed t ≡ s.sent ++ answers_after big s.a (lines (s.in_buf.bytes ++ t)))
        → Owes result owed
    unfolding waiting overrunning
    found_b s result (matched line rest split clean e) h o =
        subst (λ r. Owes r owed) (sym e) (on_b-Owes s line rest split clean o)
    found_b s result (unmatched clean _ e) h o =
        let same = bytes-grown s.in_buf in
        subst (λ r. Owes r owed) (sym e)
          (second (room (grown grow s.in_buf)) refl h (ap (index_of newline) same ∙ clean)
            (ap length (sym same))
            (λ t. o t ∙ ap (λ bs. s.sent ++ answers_after big s.a (lines (bs ++ t))) (sym same)))
    found_b s result (full clean _ e) h o =
        subst (λ r. Owes r owed) (sym e)
          (ended (λ len. λ q. absurd (cc)) (λ r. λ q. absurd (cc)) (λ t. (_, o t)))

    on_a-none :
        (s : Session N) (n : ℕ)
        → read_buffered_number big n s.in_buf.bytes ≡ none
        → on_a big grow s n ≡ close s
    unfolding on_a
    on_a-none s n h = ground (arith, h)

    abbrev second_read : Session N → ℕ → N → Session N
    second_read s n x = record (erase n s) { a = x; reading_b = true; searched = 0 }

    on_a-some :
        (s : Session N) (n : ℕ) (x : N)
        → read_buffered_number big n s.in_buf.bytes ≡ some x
        → on_a big grow s n ≡ read_until big grow (on_b big) (second_read s n x)
    unfolding on_a
    on_a-some s n x h = ground (arith, h)

    on_a-Owes :
        (s : Session N) (line rest : Bytes)
        → s.in_buf.bytes ≡ line ++ newline ∷ rest
        → index_of newline line ≡ none
        → ((t : Bytes) → owed t ≡ s.sent ++ answers big (lines (s.in_buf.bytes ++ t)))
        → Owes (on_a big grow s (suc (length line))) owed
    unfolding close erase read_until index_of
    on_a-Owes s line rest split clean o = elim (Option-cases (number big line)) [
      | inl h ↦
          rw (on_a-none s (suc (length line)) (first_number s line rest split clean ∙ h))
            (ended (λ len. λ q. absurd (cc)) (λ r. λ q. absurd (cc)) (λ t. (_, o t)))
      | inr (x, h) ↦
          rw (on_a-some s (suc (length line)) x (first_number s line rest split clean ∙ h)) (
            found_b (second_read s (suc (length line)) x) _
              (read_until-Found grow (on_b big) (second_read s (suc (length line)) x) []
                (second_read s (suc (length line)) x).in_buf.bytes refl refl refl)
              refl
              (λ t.
                o t
                ∙ ap (λ l. s.sent ++ answers big l)
                    (lines-split s.in_buf.bytes line rest t split clean)
                ∙ ap (λ l. s.sent ++ l) (answers-some big line x (lines (rest ++ t)) h)
                ∙ ap (λ r. s.sent ++ answers_after big x (lines (r ++ t)))
                    (sym (bytes-erase s line rest split clean))))
    ]

    pub found_a :
        (s result : Session N)
        → Found grow (on_a big grow) s result
        → s.reading_b ≡ false
        → ((t : Bytes) → owed t ≡ s.sent ++ answers big (lines (s.in_buf.bytes ++ t)))
        → Owes result owed
    unfolding waiting overrunning
    found_a s result (matched line rest split clean e) h o =
        subst (λ r. Owes r owed) (sym e) (on_a-Owes s line rest split clean o)
    found_a s result (unmatched clean _ e) h o =
        let same = bytes-grown s.in_buf in
        subst (λ r. Owes r owed) (sym e)
          (first (room (grown grow s.in_buf)) refl h (ap (index_of newline) same ∙ clean)
            (ap length (sym same))
            (λ t. o t ∙ ap (λ bs. s.sent ++ answers big (lines (bs ++ t))) (sym same)))
    found_a s result (full clean _ e) h o =
        subst (λ r. Owes r owed) (sym e)
          (ended (λ len. λ q. absurd (cc)) (λ r. λ q. absurd (cc)) (λ t. (_, o t)))

    pub start-Owes :
        (s : Session N)
        → ((t : Bytes) → owed t ≡ s.sent ++ answers big (lines (s.in_buf.bytes ++ t)))
        → Owes (start big grow s) owed
    unfolding start read_until index_of
    start-Owes s o =
        let r = record s { reading_b = false; searched = 0 } in
        found_a r _ (read_until-Found grow (on_a big grow) r [] r.in_buf.bytes refl refl refl) refl
          o

    pub written-Owes :
        (s : Session N) (rest : Bytes) (n : ℕ)
        → s.phase ≡ writing rest
        → ((t : Bytes) → owed t ≡ s.sent ++ rest ++ answers big (lines (s.in_buf.bytes ++ t)))
        → Owes (written big grow s rest n) owed
    unfolding written
    written-Owes s rest n h o =
        let total =
          ap (λ r. s.sent ++ r) (sym (take-append-drop n rest))
          ∙ sym (append_assoc s.sent (take n rest) (drop n rest)) in
        let all : n ≡ length rest → take n rest ≡ rest = λ q.
          ap (λ k. take k rest) q
          ∙ ap (take (length rest)) (sym (append-nil rest))
          ∙ take-length rest [] in
        elim (Bool-cases (n == length rest)) [
          | inl e ↦ rw e (
              start-Owes (record s { sent = s.sent ++ take n rest })
                (λ t.
                  o t
                  ∙ ap (λ r. r ++ answers big (lines (s.in_buf.bytes ++ t)))
                      (ap (λ r. s.sent ++ r) (sym (all ((==_iff n (length rest)).0 e))))))
          | inr e ↦ rw e (
              replying (drop n rest) refl
                (λ t. o t ∙ ap (λ r. r ++ answers big (lines (s.in_buf.bytes ++ t))) total))
        ]
