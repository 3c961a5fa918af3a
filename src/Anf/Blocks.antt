-- ===== src/Anf/Blocks.antt =====
-- anf/src: the loops over the blocks are the stages that reach beyond a word.
use cosec_examples.Prelude.{
  le→leb, lt→leb, ℕ, suc, ◌+◌, ◌-◌, ◌*◌, ◌≤◌, ◌<◌, ◌≡◌, refl, ◌∙◌, ap, true, false, ◌&&◌, some, ltb,
  leb, if◌then◌else◌, arith, Bool-cases, lt→ltb, inl, inr,
}
use native.Mathlib.Nat.{mul-le-mul_left}
use cosec_examples.Anf.{Bits, xor, load, store, xor_words, for_loop, combine}
use cosec_examples.Anf.Loops.{for_loop-P, less}
use cosec_examples.Anf.Polynomial.{xor_comm}

both : (a p b : ℕ) → (leb a p && ltb p b) ≡ true → (a ≤ p) × (p < b)
both a p b h = ground (arith, h)

-- One block: the words of its upper half.
module _ (word i j : ℕ) (h : Bits) where
  abbrev pub Upper : ℕ → Bits → Type 0
  Upper c g =
      (p : ℕ)
      → g p ≡ (
          if leb (8 * (i + j)) p && ltb p (8 * (i + j) + 8 * (word * c))
          then xor (h p) (h (p - 8 * i))
          else h p)

  -- What has not been reached yet.
  before : (c : ℕ) (g : Bits) (p : ℕ) → Upper c g → p < 8 * (i + j) → g p ≡ h p
  before c g p u lt = u p ∙ rw (lt→leb (8 * (i + j)) p lt) refl

  after : (c : ℕ) (g : Bits) (p : ℕ) → Upper c g → 8 * (i + j) + 8 * (word * c) ≤ p → g p ≡ h p
  after c g p u le = u p ∙ ground (arith, le)

  abbrev stored : ℕ → Bits → Bits
  stored c g =
      store word (i + j + word * c) (xor_words (load g (j + word * c)) (load g (i + j + word * c)))
        g

  -- A bit of the word that is stored.
  stored-in :
      (c : ℕ) (g : Bits) (p : ℕ)
      → word * suc c ≤ i
      → Upper c g
      → 8 * (i + j + word * c) ≤ p
      → p < 8 * (i + j + word * c) + 8 * word
      → stored c g p ≡ xor (h p) (h (p - 8 * i))
  unfolding store xor_words load
  stored-in c g p le u from to =
      let b = p - 8 * (i + j + word * c) in
      let here : g (8 * (i + j + word * c) + b) ≡ h p =
        ap g {y = p} (omega (arith, from)) ∙ after c g p u (omega (arith, from)) in
      let there : g (8 * (j + word * c) + b) ≡ h (p - 8 * i) =
        ap g {y = p - 8 * i} (omega (arith, from))
        ∙ before c g (p - 8 * i) u (omega (arith, from, to, le)) in
      rw
        (
          le→leb (8 * (i + j + word * c)) p from,
          lt→ltb p (8 * (i + j + word * c) + 8 * word) to,
          here,
          there,
        )
        (xor_comm (h (p - 8 * i)) (h p))

  stored-out :
      (c : ℕ) (g : Bits) (p : ℕ)
      → (leb (8 * (i + j + word * c)) p && ltb p (8 * (i + j + word * c) + 8 * word)) ≡ false
      → stored c g p ≡ g p
  unfolding store
  stored-out c g p e = rw e refl

  one_word : (c : ℕ) (g : Bits) → word * suc c ≤ i → Upper c g → Upper (suc c) (stored c g)
  one_word c g le u p =
      let next : 8 * (word * suc c) ≡ 8 * (word * c) + 8 * word = omega arith in
      elim (Bool-cases
        (leb (8 * (i + j + word * c)) p && ltb p (8 * (i + j + word * c) + 8 * word))) [
          | inl e ↦
              let (from, to) =
                both (8 * (i + j + word * c)) p (8 * (i + j + word * c) + 8 * word) e in
              stored-in c g p le u from to
              ∙ rw
                  (
                    le→leb (8 * (i + j)) p (omega (arith, from)),
                    lt→ltb p (8 * (i + j) + 8 * (word * suc c)) (omega (arith, to, next)),
                  )
                  refl
          | inr e ↦ stored-out c g p e ∙ u p ∙ ground (arith, e, next)
        ]

  -- All words of the block, when the half is a whole number of words.
  pub combine-Upper :
      (n fuel : ℕ)
      → 0 < word
      → i ≡ word * n
      → n < fuel
      → (g : Bits) × (for_loop fuel (λ k. k + word) 0 i (combine xor_words word i j) h ≡ some g)
        × Upper n g
  unfolding combine
  combine-Upper n fuel positive e enough =
      for_loop-P Upper (λ c. word * c) (λ k. k + word) n i (combine xor_words word i j)
        (λ c. omega arith) (λ c lt. omega (arith, e, less word c n positive lt)) (omega (arith, e))
        (λ c g lt u. (
          stored c g,
          refl,
          one_word c g (omega (arith, e, mul-le-mul_left {m = suc c} {n = n} word lt)) u,
        ))
        fuel 0 h (omega arith) enough (λ p. ground arith)
