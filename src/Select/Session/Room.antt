-- ===== src/Select/Session/Room.antt =====
-- select/src/main.cpp, composite_async_ops.hpp: the room of a session's input buffer.
use cosec_examples.Prelude.{
  ℕ, ◌+◌, ◌≤◌, ◌<◌, ◌≡◌, ◌≢◌, refl, sym, ◌∙◌, ap, subst, Bool, if◌then◌else◌, true, false, Option,
  none, some, [], ◌∷◌, ◌++◌, length, Option-cases, Bool-cases, ==_iff, ◌==◌, inl, inr, arith,
  length-append, length-drop, take, drop, ◌⊎◌,
}
use cosec_examples.Select.ReadUntil.{
  Bytes, match_len, Buffer, room, grown, async_read_until_impl, read_completed, read_failed,
}
use cosec_examples.Select.Session.{
  newline, max_length, BigInt, Session, Event, Phase, reading, writing, on_a, on_b, on_number,
  start, written, step, step_in, close, erase, on_read, read_until, read_buffered_number, reply,
  failed, Completes, read_some, read_fails, write_some, write_fails, stale_read, stale_read_fails,
  accepted, Reaches, accept, completes,
}
use cosec_examples.Select.Session.Found.{
  waiting, overrunning, impl-none, impl-some, on_read-full, on_read-waiting,
}

pub record Bounded (b : Buffer) : Type 0 where
  pub limit : b.max_size ≡ max_length
  below : length b.bytes ≤ max_length
  allocated : length b.bytes ≤ b.capacity

pub record Fits {N : Type 0} (s : Session N) : Type 0 where
  pub bounded : Bounded s.in_buf
  awaits :
      (len : ℕ)
      → s.phase ≡ reading len
      → (1 ≤ len)
        × (length s.in_buf.bytes + len ≤ max_length)
        × (length s.in_buf.bytes + len ≤ s.in_buf.capacity)

decided : (a b : ℕ) → a ≢ b → (a < b) ⊎ (b < a)
decided a b ne = ground arith

module _ {N : Type 0} (big : BigInt N) (grow : ℕ → ℕ) (grows : (c : ℕ) → c < grow c) where
  grown-Bounded :
      (b : Buffer)
      → Bounded b
      → length b.bytes ≢ b.max_size
      → Bounded (grown grow b) × (1 ≤ room (grown grow b))
  unfolding grown room
  grown-Bounded b h ne =
      let low : length b.bytes < b.max_size =
        omega (arith, h.limit, h.below, decided (length b.bytes) b.max_size ne) in
      elim (Bool-cases (length b.bytes == b.capacity)) [
        | inl e ↦
            let full = (==_iff (length b.bytes) b.capacity).0 e in
            rw e (
              record {
                limit = h.limit;
                below = h.below;
                allocated = omega (arith, h.allocated, grows b.capacity);
              },
              omega (arith, low, full, grows b.capacity),
            )
        | inr e ↦ rw e (
          h,
          omega (
            arith,
            low,
            h.allocated,
            decided (length b.bytes) b.capacity (λ q. absurd (ground (arith, e, q))),
          ),
        )
      ]

  room-fits :
      (b : Buffer)
      → Bounded b
      → (length b.bytes + room b ≤ max_length) × (length b.bytes + room b ≤ b.capacity)
  unfolding room
  room-fits b h =
      (omega (arith, h.limit, h.below, h.allocated), omega (arith, h.limit, h.below, h.allocated))

  waiting-Fits :
      (s : Session N)
      → Bounded s.in_buf
      → length s.in_buf.bytes ≢ s.in_buf.max_size
      → Fits (waiting grow s)
  unfolding waiting
  waiting-Fits s h ne =
      let (g, one) = grown-Bounded s.in_buf h ne in
      let (low, within) = room-fits (grown grow s.in_buf) g in
      record {
        bounded = g;
        awaits = λ len q.
            let same : room (grown grow s.in_buf) ≡ len = cc in
            (omega (arith, same, one), omega (arith, same, low), omega (arith, same, within));
      }

  -- A session that awaits no bytes.
  at_rest : (s : Session N) → Bounded s.in_buf → ((len : ℕ) → s.phase ≢ reading len) → Fits s
  at_rest s h ne = record { bounded = h; awaits = λ len q. absurd (ne len q) }

  on_read-Fits :
      (next : Session N → ℕ → Session N) (s : Session N)
      → ((n : ℕ) → Fits (next s n))
      → Bounded s.in_buf
      → Fits (on_read next s (async_read_until_impl grow newline s.searched s.in_buf))
  unfolding overrunning
  on_read-Fits next s onwards h =
      elim (Option-cases (match_len newline s.searched s.in_buf.bytes)) [
        | inr (n, q) ↦ rw (impl-some grow next s n q) (onwards n)
        | inl q ↦ elim (Bool-cases (length s.in_buf.bytes == s.in_buf.max_size)) [
          | inl e ↦
              subst Fits
                (sym (
                  ap (on_read next s) (impl-none grow next s q)
                  ∙ on_read-full grow next s ((==_iff _ _).0 e)))
                (at_rest (overrunning s) h (λ len p. absurd (cc)))
          | inr e ↦
              subst Fits
                (sym
                  (ap (on_read next s) (impl-none grow next s q) ∙ on_read-waiting grow next s e))
                (waiting-Fits s h (λ q. absurd (ground (arith, e, q))))
        ]
      ]

  erase-Bounded : (n : ℕ) (s : Session N) → Bounded s.in_buf → Bounded (erase n s).in_buf
  unfolding erase
  erase-Bounded n s h = record {
    limit = h.limit;
    below = omega (arith, h.below, length-drop n s.in_buf.bytes);
    allocated = omega (arith, h.allocated, length-drop n s.in_buf.bytes);
  }

  on_b-Fits : (s : Session N) (n : ℕ) → Bounded s.in_buf → Fits (on_b big s n)
  unfolding on_b close
  on_b-Fits s n h = go (read_buffered_number big n s.in_buf.bytes)
    where
      go :
          (o : Option N)
          → Fits (elim o [
            | none ↦ close s
            | some b ↦ record (erase n s) { phase = writing (reply big s.a b) }
          ])
      go none = at_rest (close s) h (λ len p. absurd (cc))
      go (some b) = at_rest _ (erase-Bounded n s h) (λ len p. absurd (cc))

  on_a-Fits : (s : Session N) (n : ℕ) → Bounded s.in_buf → Fits (on_a big grow s n)
  unfolding on_a close read_until
  on_a-Fits s n h = go (read_buffered_number big n s.in_buf.bytes)
    where
      go :
          (o : Option N)
          → Fits (elim o [
            | none ↦ close s
            | some x ↦
                read_until big grow
                  (on_b big)
                  (record (erase n s) { a = x; reading_b = true; searched = 0 })
          ])
      go none = at_rest (close s) h (λ len p. absurd (cc))
      go (some x) =
          let r = record (erase n s) { a = x; reading_b = true; searched = 0 } in
          on_read-Fits (on_b big) r (λ k. on_b-Fits r k (erase-Bounded n s h)) (erase-Bounded n s h)

  on_number-Fits : (s : Session N) (n : ℕ) → Bounded s.in_buf → Fits (on_number big grow s n)
  unfolding on_number
  on_number-Fits s n h = go s.reading_b
    where
      go : (b : Bool) → Fits (if b then on_b big s n else on_a big grow s n)
      go true = on_b-Fits s n h
      go false = on_a-Fits s n h

  start-Fits : (s : Session N) → Bounded s.in_buf → Fits (start big grow s)
  unfolding start read_until
  start-Fits s h =
      let r = record s { reading_b = false; searched = 0 } in
      on_read-Fits (on_a big grow) r (λ k. on_a-Fits r k h) h

  written-Fits :
      (s : Session N) (rest : Bytes) (n : ℕ) → Bounded s.in_buf → Fits (written big grow s rest n)
  unfolding written
  written-Fits s rest n h =
      let t = record s { sent = s.sent ++ take n rest } in
      elim (Bool-cases (n == length rest)) [
        | inl e ↦ rw e (start-Fits t h)
        | inr e ↦
            rw e (at_rest (record t { phase = writing (drop n rest) }) h (λ len p. absurd (cc)))
      ]

  step_in-Fits :
      (s : Session N) (p : Phase) (e : Event)
      → s.phase ≡ p
      → Completes p e
      → Fits s
      → Fits (step_in big grow p s e)
  unfolding step_in read_completed read_failed on_read failed close
  step_in-Fits s _ _ h (read_some {len} {chunk = []} q) f =
      at_rest _ f.bounded (λ _. λ p. absurd (cc))
  step_in-Fits s _ _ h (read_some {len} {chunk = b ∷ bs} q) f =
      let (one, below, within) = f.awaits len h in
      let r = record s { in_buf = record s.in_buf { bytes = s.in_buf.bytes ++ b ∷ bs } } in
      let bounded : Bounded r.in_buf = record {
        limit = f.bounded.limit;
        below = omega (arith, below, q, length-append s.in_buf.bytes (b ∷ bs));
        allocated = omega (arith, within, q, length-append s.in_buf.bytes (b ∷ bs));
      } in
      on_read-Fits (on_number big grow) r (λ k. on_number-Fits r k bounded) bounded
  step_in-Fits s _ _ h read_fails f = at_rest _ f.bounded (λ _. λ p. absurd (cc))
  step_in-Fits s _ _ h (write_some {rest} {n} q) f = written-Fits s rest n f.bounded
  step_in-Fits s _ _ h write_fails f = at_rest _ f.bounded (λ _. λ p. absurd (cc))
  step_in-Fits s _ _ h (stale_read {chunk}) f = at_rest _ f.bounded (λ _. λ p. absurd (cc))
  step_in-Fits s _ _ h stale_read_fails f = at_rest _ f.bounded (λ _. λ p. absurd (cc))

  module _ (capacity : ℕ) where
    pub reached-Fits :
        (s : Session N) (received : Bytes) → Reaches big grow capacity s received → Fits s
    unfolding accepted step
    reached-Fits _ _ accept =
        start-Fits _ (record { limit = refl; below = omega arith; allocated = omega arith })
    reached-Fits _ _ (completes {s} {received} {e} r c) =
        step_in-Fits s s.phase e refl c (reached-Fits s received r)

    -- When the buffer's growth strategy grows it, the input buffer never holds more than 1024 bytes, and
    -- each read that is awaited is for one byte or more, which fit within that and the allocated memory.
    pub Reaches-bounds :
        (s : Session N) (received : Bytes)
        → Reaches big grow capacity s received
        → (length s.in_buf.bytes ≤ max_length)
          × ((len : ℕ)
              → s.phase ≡ reading len
              → (1 ≤ len)
                × (length s.in_buf.bytes + len ≤ max_length)
                × (length s.in_buf.bytes + len ≤ s.in_buf.capacity))
    Reaches-bounds s received r = let f = reached-Fits s received r in (f.bounded.below, f.awaits)
