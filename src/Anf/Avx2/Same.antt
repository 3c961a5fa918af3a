-- ===== src/Anf/Avx2/Same.antt =====
-- anf/src/anf_avx2.cpp: the wide words make the first eight stages.
use cosec_examples.Prelude.{
  le→ltb, ltb→le, ℕ, suc, ◌+◌, ◌-◌, ◌*◌, ◌%◌, ◌^◌, ◌≤◌, ◌<◌, ◌≡◌, refl, sym, ◌∙◌, ap, Bool, true,
  false, not, ◌||◌, ◌&&◌, some, ltb, leb, if◌then◌else◌, arith, Bool-cases, leb→le, ltb→lt, inl,
  inr, fun_ext,
}
use native.Mathlib.Nat.{two-pow-succ}
use cosec_examples.Anf.{Bits, xor_words, bit, load, word_loop, block_loop, anf}
use cosec_examples.Anf.Loops.{word_loop-Until}
use cosec_examples.Anf.Stages.{
  stage, stages, same, same→≡, all_below, all_below_sound, xor-false, and-true, upper, Holds,
}
use cosec_examples.Anf.Transform.{Becomes, Until-Becomes, block_loop-Becomes, anf-stages}
use cosec_examples.Anf.Avx2.{Avx2, lane_shift, masked_avx2, transform_word_avx2, anf_avx2}

-- A mask of 32 bits, for all 256, and its shift within the lanes of 16 bits.
abbrev is_mask : ℕ → ℕ → Bool
is_mask d m = all_below 256 (λ i.
    same (bit m (i % 32)) (leb d (i % (2 * d)))
    && (not (leb d (i % (2 * d))) || not (ltb (i % 16) d)))

mask_1 : is_mask 1 0xaaaaaaaa ≡ true
unfolding all_below bit
mask_1 = refl

mask_2 : is_mask 2 0xcccccccc ≡ true
unfolding all_below bit
mask_2 = refl

mask_4 : is_mask 4 0xf0f0f0f0 ≡ true
unfolding all_below bit
mask_4 = refl

and-split : (a b : Bool) → (a && b) ≡ true → (a ≡ true) × (b ≡ true)
and-split true true h = (refl, refl)
and-split true false h = absurd (cc)
and-split false b h = absurd (cc)

implied : (a b : Bool) → (not a || not b) ≡ true → a ≡ true → b ≡ false
implied true true h k = absurd (cc)
implied true false h k = refl
implied false b h k = absurd (cc)

mask_bits :
    (d m i : ℕ)
    → is_mask d m ≡ true
    → i < 256
    → (bit m (i % 32) ≡ leb d (i % (2 * d))) × (leb d (i % (2 * d)) ≡ true → ltb (i % 16) d ≡ false)
mask_bits d m i h lt =
    let (b, s) = and-split _ _ (all_below_sound 256 _ i h lt) in (same→≡ _ _ b, implied _ _ s)

not_leb : (d r : ℕ) → leb d r ≡ false → ltb r d ≡ true
not_leb d r h = ground (arith, h)

below :
    (d i : ℕ) (x f : Bits) (base : ℕ)
    → Holds 256 base f x
    → i < 256
    → d ≤ i
    → x (i - d) ≡ f (base + i - d)
below d i x f base h lt le =
    h (i - d) (omega (arith, lt)) ∙ ap f {x = base + (i - d)} {y = base + i - d} (omega (arith, le))

module _ (avx : Avx2) where
  masked-Holds :
      (d m base : ℕ) (f x : Bits)
      → is_mask d m ≡ true
      → ((i : ℕ) → (base + i) % (2 * d) ≡ i % (2 * d))
      → Holds 256 base f x
      → Holds 256 base (stage d f) (masked_avx2 avx d m x)
  unfolding masked_avx2 stage lane_shift
  masked-Holds d m base f x mask aligned h i lt =
      let (b, in_lane) = mask_bits d m i mask lt in
      avx.xor_si256_bits x (avx.and_si256 (avx.slli_epi16 x d) (avx.set1_epi32 m)) i
      ∙ rw
          (
            avx.and_si256_bits (avx.slli_epi16 x d) (avx.set1_epi32 m) i,
            avx.slli_epi16_bits x d i,
            avx.set1_epi32_bits m i,
            b,
            aligned i,
            h i lt,
          )
          (elim (Bool-cases (leb d (i % (2 * d)))) [
            | inl up ↦
                rw (up, in_lane up, and-true (x (i - d)), below d i x f base h lt (upper d i up))
                  refl
            | inr low ↦
                rw (low, xor-false (f (base + i)) (if ltb (i % 16) d then false else x (i - d)))
                  refl
          ])

  -- A shift in lanes of twice its length needs no mask.
  plain-Holds :
      (d base : ℕ) (f x s : Bits)
      → ((i : ℕ) → i < 256 → s i ≡ lane_shift (2 * d) d x i)
      → ((i : ℕ) → (base + i) % (2 * d) ≡ i % (2 * d))
      → Holds 256 base f x
      → Holds 256 base (stage d f) (avx.xor_si256 x s)
  unfolding stage lane_shift
  plain-Holds d base f x s e aligned h i lt =
      avx.xor_si256_bits x s i
      ∙ rw (e i lt, aligned i, h i lt)
          (elim (Bool-cases (leb d (i % (2 * d)))) [
            | inl up ↦
                rw
                  (
                    up,
                    le→ltb (i % (2 * d)) d (leb→le d (i % (2 * d)) up),
                    below d i x f base h lt (upper d i up),
                  )
                  refl
            | inr low ↦ rw (low, not_leb d (i % (2 * d)) low) (xor-false (f (base + i)) true)
          ])

  transform_word_avx2-Holds :
      (c : ℕ) (f : Bits)
      → Holds 256 (8 * (32 * c)) (stages 8 f) (transform_word_avx2 avx (load f (32 * c)))
  unfolding transform_word_avx2 stages load
  transform_word_avx2-Holds c f =
      let base = 8 * (32 * c) in
      let h0 : Holds 256 base f (load f (32 * c)) = λ i lt. refl in
      let f1 = stage 1 f in
      let x1 = masked_avx2 avx 1 0xaaaaaaaa (load f (32 * c)) in
      let h1 = masked-Holds 1 0xaaaaaaaa base f (load f (32 * c)) mask_1 (λ i. omega arith) h0 in
      let f2 = stage 2 f1 in
      let x2 = masked_avx2 avx 2 0xcccccccc x1 in
      let h2 = masked-Holds 2 0xcccccccc base f1 x1 mask_2 (λ i. omega arith) h1 in
      let f3 = stage 4 f2 in
      let x3 = masked_avx2 avx 4 0xf0f0f0f0 x2 in
      let h3 = masked-Holds 4 0xf0f0f0f0 base f2 x2 mask_4 (λ i. omega arith) h2 in
      let f4 = stage 8 f3 in
      let x4 = avx.xor_si256 x3 (avx.slli_epi16 x3 8) in
      let h4 =
        plain-Holds 8 base f3 x3 _ (λ i _. avx.slli_epi16_bits x3 8 i) (λ i. omega arith) h3 in
      let f5 = stage 16 f4 in
      let x5 = avx.xor_si256 x4 (avx.slli_epi32 x4 16) in
      let h5 =
        plain-Holds 16 base f4 x4 _ (λ i _. avx.slli_epi32_bits x4 16 i) (λ i. omega arith) h4 in
      let f6 = stage 32 f5 in
      let x6 = avx.xor_si256 x5 (avx.slli_epi64 x5 32) in
      let h6 =
        plain-Holds 32 base f5 x5 _ (λ i _. avx.slli_epi64_bits x5 32 i) (λ i. omega arith) h5 in
      let x7 = avx.xor_si256 x6 (avx.slli_si256 x6 8) in
      let h7 =
        plain-Holds 64 base f6 x6 _ (λ i _. avx.slli_si256_bits x6 8 i) (λ i. omega arith) h6 in
      plain-Holds 128 base (stage 64 f6) x7 _ (λ i lt. avx.permute2x128_08_bits x7 i lt)
        (λ i. omega arith) h7

  anf_avx2-run :
      (size : ℕ) (f g : Bits)
      → word_loop 32 (transform_word_avx2 avx) size f ≡ some g
      → anf_avx2 avx size f ≡ block_loop avx.xor_si256 32 size g
  unfolding anf_avx2
  anf_avx2-run size f g h = ground (arith, h)

  add_words : avx.xor_si256 ≡ xor_words
  unfolding xor_words
  add_words = fun_ext (λ x. fun_ext (λ y. fun_ext (λ i. avx.xor_si256_bits x y i)))

  anf_avx2-stages :
      (m : ℕ) (f : Bits)
      → (g : Bits) × (anf_avx2 avx (32 * 2 ^ m) f ≡ some g)
        × Becomes (8 * (32 * 2 ^ m)) (stages (m + 8) f) f g
  anf_avx2-stages m f =
      let (g, run, u) =
        word_loop-Until 32 (omega arith) (transform_word_avx2 avx) f (stages 8 f)
          (λ c i lt. transform_word_avx2-Holds c f i lt) (2 ^ m) in
      let (t, run', h) =
        block_loop-Becomes 32 8 (omega arith) refl m f g
          (Until-Becomes (8 * (32 * 2 ^ m)) (stages 8 f) f g u) in
      (
        t,
        anf_avx2-run (32 * 2 ^ m) f g run
            ∙ ap (λ add. block_loop add 32 (32 * 2 ^ m) g) add_words
            ∙ run',
        h,
      )

  -- On 32 * 2 ^ m bytes both functions have a result, and the same one.
  pub anf_avx2-anf :
      (m : ℕ) (f : Bits)
      → (g : Bits) × (anf_avx2 avx (32 * 2 ^ m) f ≡ some g) × (anf (32 * 2 ^ m) f ≡ some g)
  anf_avx2-anf m f =
      let (g, run, (low, high)) = anf_avx2-stages m f in
      let (h, run', (low', high')) = anf-stages (suc (suc m)) f in
      let size : 8 * 2 ^ suc (suc m) ≡ 32 * 2 ^ m =
        omega (arith, two-pow-succ (suc m), two-pow-succ m) in
      let count : suc (suc m) + 6 ≡ m + 8 = omega arith in
      let equal : (p : ℕ) → h p ≡ g p = λ p. elim (Bool-cases (ltb p (8 * (32 * 2 ^ m)))) [
        | inl b ↦
            let lt = ltb→lt p (8 * (32 * 2 ^ m)) b in
            low' p (omega (arith, lt, size)) ∙ ap (λ n. stages n f p) count ∙ sym (low p lt)
        | inr b ↦
            let le = ltb→le p (8 * (32 * 2 ^ m)) b in
            high' p (omega (arith, le, size)) ∙ sym (high p le)
      ] in
      (g, run, ap (λ n. anf n f) (sym size) ∙ run' ∙ ap some (fun_ext equal))
