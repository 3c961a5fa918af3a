-- ===== src/Anf/Avx2.antt =====
-- anf/src/anf_avx2.cpp: the same transform on words of 256 bits. The instructions are a parameter.
pub mod Same
use cosec_examples.Prelude.{
  ℕ, suc, ◌+◌, ◌-◌, ◌*◌, ◌%◌, ◌<◌, ◌≡◌, Bool, true, false, ◌&&◌, Option, none, some, ltb,
  if◌then◌else◌,
}
use cosec_examples.Anf.{Bits, xor, bit, word_loop, block_loop}

-- A shift to the left in each lane of `lane` bits.
unfoldable pub lane_shift : ℕ → ℕ → Bits → Bits
lane_shift lane k x i = if ltb (i % lane) k then false else x (i - k)

-- The intrinsics, with what the instructions do to the 256 bits. The shift of a lane of 128 bits counts bytes, and
-- permute2x128 with 0x08 gives zeros and the low half.
pub record Avx2 : Type 0 where
  pub slli_epi16 : Bits → ℕ → Bits
  pub slli_epi32 : Bits → ℕ → Bits
  pub slli_epi64 : Bits → ℕ → Bits
  pub slli_si256 : Bits → ℕ → Bits
  pub permute2x128_08 : Bits → Bits
  pub set1_epi32 : ℕ → Bits
  pub and_si256 : Bits → Bits → Bits
  pub xor_si256 : Bits → Bits → Bits
  pub slli_epi16_bits : (x : Bits) (k i : ℕ) → slli_epi16 x k i ≡ lane_shift 16 k x i
  pub slli_epi32_bits : (x : Bits) (k i : ℕ) → slli_epi32 x k i ≡ lane_shift 32 k x i
  pub slli_epi64_bits : (x : Bits) (k i : ℕ) → slli_epi64 x k i ≡ lane_shift 64 k x i
  pub slli_si256_bits : (x : Bits) (k i : ℕ) → slli_si256 x k i ≡ lane_shift 128 (8 * k) x i
  pub permute2x128_08_bits :
      (x : Bits) (i : ℕ) → i < 256 → permute2x128_08 x i ≡ lane_shift 256 128 x i
  pub set1_epi32_bits : (m i : ℕ) → set1_epi32 m i ≡ bit m (i % 32)
  pub and_si256_bits : (x y : Bits) (i : ℕ) → and_si256 x y i ≡ x i && y i
  pub xor_si256_bits : (x y : Bits) (i : ℕ) → xor_si256 x y i ≡ xor (x i) (y i)

module _ (avx : Avx2) where
  -- _mm256_xor_si256(x,_mm256_and_si256(_mm256_slli_epi16(x,k),_mm256_set1_epi32(int(m))))
  unfoldable pub masked_avx2 : ℕ → ℕ → Bits → Bits
  masked_avx2 k m x = avx.xor_si256 x (avx.and_si256 (avx.slli_epi16 x k) (avx.set1_epi32 m))

  -- The lines between the two copies of a word.
  unfoldable pub transform_word_avx2 : Bits → Bits
  transform_word_avx2 x =
      let x1 = masked_avx2 1 0xaaaaaaaa x in
      let x2 = masked_avx2 2 0xcccccccc x1 in
      let x3 = masked_avx2 4 0xf0f0f0f0 x2 in
      let x4 = avx.xor_si256 x3 (avx.slli_epi16 x3 8) in
      let x5 = avx.xor_si256 x4 (avx.slli_epi32 x4 16) in
      let x6 = avx.xor_si256 x5 (avx.slli_epi64 x5 32) in
      let x7 = avx.xor_si256 x6 (avx.slli_si256 x6 8) in avx.xor_si256 x7 (avx.permute2x128_08 x7)

  -- ce::anf_avx2
  unfoldable pub anf_avx2 : ℕ → Bits → Option Bits
  anf_avx2 size f = elim (word_loop 32 transform_word_avx2 size f) [
    | none ↦ none
    | some g ↦ block_loop avx.xor_si256 32 size g
  ]
