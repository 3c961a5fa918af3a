-- ===== src/GuiProgress/FileCopier/Progress.antt =====
-- gui-progress/src/filecopier.cpp: what copyFile emits and leaves.
use cosec_examples.Prelude.{
  ℕ, suc, ◌+◌, ◌*◌, ◌/◌, ◌≤◌, ◌<◌, ◌≡◌, ◌≢◌, refl, sym, ◌∙◌, subst, true, false, some, List, [],
  ◌∷◌, ◌++◌, ◌==◌, length, arith, Bool-cases, ==_iff, append-nil, length-append, append_assoc, inl,
  inr, ap, lt→ltb, Option,
}
use mathlib.Core.Option.{map}
use cosec_examples.GuiProgress.FileCopier.{
  Bytes, Message, write_failed, cancelled_copy, success, Signal, progress_changed, done, Block,
  qint64_bound, After, Copy, emit, finish, update, to_int, copy_blocks, copy_file,
}
use native.Mathlib.Nat.{le-div_iff_mul-le, div-lt_iff_lt-mul, div-mul-le_self}

-- Percentages that rise and stay below 101, then one message, the last signal.
pub data Rises : ℕ → List Signal → Message → Type 0 where
  ends : {low : ℕ} {m : Message} → Rises low (done m ∷ []) m
  rises :
      {low p : ℕ} {signals : List Signal} {m : Message}
      → low < p
      → p ≤ 100
      → Rises p signals m
      → Rises low (progress_changed p ∷ signals) m

unfoldable pub contents : List Block → Bytes
contents [] = []
contents (b ∷ blocks) = b.bytes ++ contents blocks

div_mono : (a b k : ℕ) → 0 < k → a ≤ b → a / k ≤ b / k
div_mono a b k h le = (le-div_iff_mul-le h).1 (omega (arith, le, div-mul-le_self a k))

percent : (copied size : ℕ) → 0 < size → copied ≤ size → 100 * copied / size ≤ 100
percent copied size h le =
    let below = (div-lt_iff_lt-mul {x = 100 * copied} {y = 101} h).1 (omega (arith, h, le)) in
    omega (arith, below)

apart : (a b : ℕ) → (a == b) ≡ false → a ≢ b
apart a b h e = absurd (ground (arith, h, e))

update-Rises :
    (low p : ℕ) (r : Copy) (m : Message)
    → low ≤ p
    → p ≤ 100
    → Rises p r.0 m
    → Rises low (update low p r).0 m
unfolding update emit
update-Rises low p r m le top h = elim (Bool-cases (low == p)) [
  | inl e ↦ rw e (subst (λ k. Rises k r.0 m) (sym ((==_iff low p).0 e)) h)
  | inr e ↦ rw e (rises (omega (arith, le, apart low p e)) top h)
]

update-destination : (low p : ℕ) (r : Copy) → (update low p r).1 ≡ r.1
unfolding update emit
update-destination low p r = elim (Bool-cases (low == p)) [ inl e ↦ rw e refl | inr e ↦ rw e refl ]

-- The flag stays set once it is: it is reset only when no copy runs.
pub data Sticky (after : After) : List Block → Type 0 where
  unset : Sticky after []
  stays :
      {b : Block} {blocks : List Block}
      → (b.cancelled ≡ true → after.cancelled ≡ true)
      → Sticky after blocks
      → Sticky after (b ∷ blocks)

-- Nothing is cancelled and every write is whole.
pub data Untroubled : List Block → Type 0 where
  at_end : Untroubled []
  untroubled :
      {b : Block} {blocks : List Block}
      → b.cancelled ≡ false
      → b.written ≡ true
      → Untroubled blocks
      → Untroubled (b ∷ blocks)

-- What a copy comes to.
pub record Copied (low : ℕ) (blocks : List Block) (after : After) (expected : Bytes)
    (c : Option Copy) : Type 0 where
  pub copy : Copy
  pub runs : c ≡ some copy
  pub message : Message
  pub signals : Rises low copy.0 message
  pub complete : message ≡ success → copy.1 ≡ expected
  pub succeeds :
      Untroubled blocks → after.cancelled ≡ false → after.failed ≡ false → message ≡ success

later : {b : Block} {blocks : List Block} → Untroubled (b ∷ blocks) → Untroubled blocks
later (untroubled _ _ u) = u

written_of : {b : Block} {blocks : List Block} → Untroubled (b ∷ blocks) → b.written ≡ true
written_of (untroubled _ w _) = w

finish-success :
    (after : After) → after.cancelled ≡ false → after.failed ≡ false → finish after ≡ success
unfolding finish
finish-success after h k = rw (h, k) refl

finish-cancelled : (after : After) → after.cancelled ≡ true → finish after ≡ cancelled_copy
unfolding finish
finish-cancelled after h = rw h refl

module _ (size : ℕ) (positive : 0 < size) (small : 100 * size < qint64_bound) (after : After) where
  -- One block more.
  more_blocks :
      (low copied : ℕ) (destination : Bytes) (b : Block) (blocks : List Block)
      → (b.cancelled ≡ true → after.cancelled ≡ true)
      → low ≤ to_int (100 * (copied + length b.bytes) / size)
      → to_int (100 * (copied + length b.bytes) / size) ≤ 100
      → 100 * (copied + length b.bytes) < qint64_bound
      → Copied
          (to_int (100 * (copied + length b.bytes) / size))
          blocks
          after
          (destination ++ b.bytes ++ contents blocks)
          (copy_blocks size
            (to_int (100 * (copied + length b.bytes) / size))
            (copied + length b.bytes)
            (destination ++ b.bytes)
            blocks
            after)
      → Copied low
          (b ∷ blocks)
          after
          (destination ++ b.bytes ++ contents blocks)
          (copy_blocks size low copied destination (b ∷ blocks) after)
  unfolding copy_blocks
  more_blocks low copied destination b blocks sticky up top small r =
      let p = to_int (100 * (copied + length b.bytes) / size) in
      let exact = lt→ltb (100 * (copied + length b.bytes)) qint64_bound small in
      elim (Bool-cases b.cancelled) [
        | inl e ↦ rw e (record {
          copy = (done (finish after) ∷ [], destination);
          runs = refl;
          message = finish after;
          signals = ends;
          complete = λ q. absurd (cc (finish-cancelled after (sticky e)));
          succeeds = λ u h k. finish-success after h k;
        })
        | inr e ↦ elim (Bool-cases b.written) [
          | inl w ↦
              rw (e, w, exact, r.runs)
                (record {
                  copy = update low p r.copy;
                  runs = refl;
                  message = r.message;
                  signals = update-Rises low p r.copy r.message up top r.signals;
                  complete = λ q. update-destination low p r.copy ∙ r.complete q;
                  succeeds = λ u h k. r.succeeds (later u) h k;
                })
          | inr w ↦
              rw (e, w)
                (record {
                  copy = (done write_failed ∷ [], destination);
                  runs = refl;
                  message = write_failed;
                  signals = ends;
                  complete = λ q. absurd (cc);
                  succeeds = λ u h k. absurd (cc (written_of u));
                })
        ]
      ]

  int_of_percent : (p : ℕ) → p ≤ 100 → to_int p ≡ p
  unfolding to_int
  int_of_percent p h = omega (arith, h)

  -- Blocks that are no more than the size reported.
  copy_blocks-Copied :
      (low copied : ℕ) (destination : Bytes) (blocks : List Block)
      → Sticky after blocks
      → low ≤ 100 * copied / size
      → copied + length (contents blocks) ≤ size
      → Copied low blocks after
          (destination ++ contents blocks)
          (copy_blocks size low copied destination blocks after)
  unfolding copy_blocks contents
  copy_blocks-Copied low copied destination [] sticky up within = record {
    copy = (done (finish after) ∷ [], destination);
    runs = refl;
    message = finish after;
    signals = ends;
    complete = λ q. sym (append-nil destination);
    succeeds = λ u h k. finish-success after h k;
  }
  copy_blocks-Copied low copied destination (b ∷ blocks) (stays f sticky) up within =
      let total = copied + length b.bytes in
      let fits : total + length (contents blocks) ≤ size =
        omega (arith, within, length-append b.bytes (contents blocks)) in
      let top = percent total size positive (omega (arith, fits)) in
      let exact = int_of_percent (100 * total / size) top in
      let climb = div_mono (100 * copied) (100 * total) size positive (omega arith) in
      let p = to_int (100 * total / size) in
      subst
        (λ e.
          Copied low (b ∷ blocks) after e
            (copy_blocks size low copied destination (b ∷ blocks) after))
        (append_assoc destination b.bytes (contents blocks))
        (more_blocks low copied destination b blocks f (omega (arith, up, climb, exact))
          (omega (arith, top, exact)) (omega (arith, fits, small))
          (copy_blocks-Copied p total (destination ++ b.bytes) blocks sticky (omega (arith, exact))
            fits))

-- When both files open and the blocks that are read are no more than the size reported, which is not zero and
-- small enough for a hundred times it to be a qint64, copyFile emits 0, percentages that rise and stay below
-- 101, and then one message, its last signal. If that is the success, the destination is the blocks; and it
-- is if nothing is cancelled, no read fails and every write is whole.
pub copy_file-Copied :
    (n : ℕ) (blocks : List Block) (after : After)
    → 100 * suc n < qint64_bound
    → Sticky after blocks
    → length (contents blocks) ≤ suc n
    → (r : Copy) × (copy_file true true (suc n) blocks after ≡ some (emit (progress_changed 0) r))
      × Copied 0 blocks after (contents blocks) (some r)
unfolding copy_file
copy_file-Copied n blocks after small sticky within =
    let h =
      copy_blocks-Copied (suc n) (omega arith) small after 0 0 [] blocks sticky (omega arith)
        (omega (arith, within)) in
    (
      h.copy,
      ap (map (emit (progress_changed 0))) h.runs,
      subst (Copied 0 blocks after (contents blocks)) h.runs h,
    )
