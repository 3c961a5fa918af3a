-- ===== src/Anf/Normal.antt =====
-- anf/src: all loops of a transform together.
use cosec_examples.Prelude.{
  le→ltb, le→leb, ltb→le, ℕ, suc, ◌+◌, ◌-◌, ◌*◌, ◌%◌, ◌≤◌, ◌<◌, ◌≡◌, refl, sym, ◌∙◌, ap, false,
  ◌&&◌, some, ltb, leb, if◌then◌else◌, arith, Bool-cases, ltb→lt, lt→ltb, leb→le, inl, inr,
}
use native.Mathlib.Nat.{mul-add-mod_self_left, mod-eq_of_lt}
use cosec_examples.Anf.{Bits, xor, xor_words, for_loop, combine}
use cosec_examples.Anf.Loops.{for_loop-P, less, within, Until}
use cosec_examples.Anf.Stages.{stage}
use cosec_examples.Anf.Blocks.{Upper, combine-Upper}

-- A stage in a block that starts at a whole number of blocks.
stage_block :
    (d e p : ℕ) (h : Bits)
    → 2 * d * e ≤ p
    → p < 2 * d * e + 2 * d
    → stage d h p
      ≡ (if leb (2 * d * e + d) p && ltb p (2 * d * e + d + d) then xor (h p) (h (p - d)) else h p)
unfolding stage
stage_block d e p h from to =
    let b = p - 2 * d * e in
    let place : p % (2 * d) ≡ b =
      ap (λ x. x % (2 * d)) {x = p} {y = 2 * d * e + b} (omega (arith, from))
      ∙ mul-add-mod_self_left (2 * d) e b
      ∙ mod-eq_of_lt (omega (arith, from, to)) in
    rw place (ground (arith, from, to))

not_above : (a b p : ℕ) → a ≡ b → leb b p ≡ false → leb a p ≡ false
not_above a b p e h = ap (λ k. leb k p) e ∙ h

-- The blocks one after the other.
module _ (word i n : ℕ) (positive : 0 < word) (some_words : 0 < n) (words : i ≡ word * n)
    (h : Bits) where
  module _ (e : ℕ) (g t : Bits) (u : Until (8 * (2 * i * e)) (stage (8 * i) h) h g)
      (v : Upper word i (2 * i * e) g n t) where
    -- The block's bits before the step are the original ones.
    original : (p : ℕ) → 8 * (2 * i * e) ≤ p → g p ≡ h p
    original p le = u p ∙ rw (le→ltb p (8 * (2 * i * e)) le) refl

    within_block : (p : ℕ) → 8 * (2 * i * e) ≤ p → p < 8 * (2 * i * suc e) → t p ≡ stage (8 * i) h p
    within_block p from to =
        let base : 2 * (8 * i) * e ≡ 8 * (2 * i * e) = omega arith in
        let next : 8 * (2 * i * suc e) ≡ 8 * (2 * i * e) + 16 * i = omega arith in
        let target =
          stage_block (8 * i) e p h (omega (arith, base, from)) (omega (arith, base, to, next)) in
        elim (Bool-cases (leb (8 * (i + 2 * i * e)) p)) [
          | inl up ↦
              let above = leb→le (8 * (i + 2 * i * e)) p up in
              v p
              ∙ rw
                  (
                    up,
                    lt→ltb p (8 * (i + 2 * i * e) + 8 * (word * n))
                        (omega (arith, to, next, words)),
                    original p from,
                    original (p - 8 * i) (omega (arith, above)),
                  )
                  (sym (
                    target
                    ∙ rw
                        (
                          le→leb (2 * (8 * i) * e + 8 * i) p (omega (arith, base, above)),
                          lt→ltb p (2 * (8 * i) * e + 8 * i + 8 * i)
                              (omega (arith, base, to, next)),
                        )
                        refl))
          | inr low ↦
              v p
              ∙ rw (low, original p from)
                  (sym (
                    target
                    ∙ rw
                        (not_above (2 * (8 * i) * e + 8 * i) (8 * (i + 2 * i * e)) p
                          (omega (arith, base)) low)
                        refl))
        ]

    earlier_same :
        (p : ℕ)
        → leb (8 * (2 * i * e)) p ≡ false
        → (if leb (8 * (i + 2 * i * e)) p && ltb p (8 * (i + 2 * i * e) + 8 * (word * n))
            then xor (g p) (g (p - 8 * i))
            else g p)
          ≡ g p
    earlier_same p h = ground (arith, h)

    later_same :
        (p : ℕ)
        → ltb p (8 * (2 * i * suc e)) ≡ false
        → (if leb (8 * (i + 2 * i * e)) p && ltb p (8 * (i + 2 * i * e) + 8 * (word * n))
            then xor (g p) (g (p - 8 * i))
            else g p)
          ≡ g p
    later_same p h = ground (arith, h, words)

    block : Until (8 * (2 * i * suc e)) (stage (8 * i) h) h t
    block p = elim (Bool-cases (ltb p (8 * (2 * i * suc e)))) [
      | inl low ↦ rw low (elim (Bool-cases (leb (8 * (2 * i * e)) p)) [
        | inl in_block ↦
            within_block p (leb→le (8 * (2 * i * e)) p in_block)
              (ltb→lt p (8 * (2 * i * suc e)) low)
        | inr earlier ↦ v p ∙ earlier_same p earlier ∙ u p ∙ ground (arith, earlier)
      ])
      | inr late ↦ rw late (
          v p ∙ later_same p late ∙ original p (omega (arith, ltb→le p (8 * (2 * i * suc e)) late)))
    ]

  pub blocks :
      (count fuel : ℕ)
      → count < fuel
      → (g : Bits) × (for_loop fuel
            (λ j. j + 2 * i)
            0
            (2 * i * count)
            (λ j g. for_loop (suc i) (λ k. k + word) 0 i (combine xor_words word i j) g)
            h
          ≡ some g)
        × Until (8 * (2 * i * count)) (stage (8 * i) h) h g
  blocks count fuel enough =
      for_loop-P (λ e. Until (8 * (2 * i * e)) (stage (8 * i) h) h) (λ e. 2 * i * e)
        (λ j. j + 2 * i) count (2 * i * count)
        (λ j g. for_loop (suc i) (λ k. k + word) 0 i (combine xor_words word i j) g)
        (λ e. omega arith)
        (λ e lt. less (2 * i) e count (omega (arith, words, less word 0 n positive some_words)) lt)
        (omega arith)
        (λ e g lt u.
          let (t, run, v) =
            combine-Upper word i (2 * i * e) g n (suc i) positive words
              (omega (arith, words, within word n positive)) in
          (t, run, block e g t u v))
        fuel 0 h (omega arith) enough (λ p. rw (le→ltb p (8 * (2 * i * 0)) (omega arith)) refl)
