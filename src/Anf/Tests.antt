-- ===== src/Anf/Tests.antt =====
-- The transform of a memory of one word, and of four.
use cosec_examples.Prelude.{
  ℕ, ◌+◌, ◌*◌, ◌%◌, ◌^◌, ◌≤◌, ◌<◌, ◌≡◌, refl, Bool, true, false, ◌&&◌, ◌||◌, Option, none, some,
  ◌==◌,
}
use cosec_examples.Anf.{
  Bits, xor, bit, load, store, shift_left, xor_words, and_mask, masked, transform_word, for_loop,
  combine, word_loop, block_loop, anf,
}
use cosec_examples.Anf.Polynomial.{evaluate}
use cosec_examples.Anf.Transform.{anf-evaluate, anf-anf}
use cosec_examples.Anf.Avx2.{Avx2, lane_shift, anf_avx2}
use cosec_examples.Anf.Avx2.Same.{anf_avx2-anf}

-- The function that is true at the points 0 and 67.
abbrev two_points : Bits
two_points p = (p == 0) || (p == 67)

anf-evaluate_example :
    (g : Bits) × (anf (8 * 2 ^ 1) two_points ≡ some g)
    × ((p : ℕ) → p < 8 * (8 * 2 ^ 1) → evaluate (1 + 6) g p ≡ two_points p)
    × ((p : ℕ) → 8 * (8 * 2 ^ 1) ≤ p → g p ≡ two_points p)
anf-evaluate_example = anf-evaluate 1 two_points

anf-anf_example :
    (g : Bits) × (anf (8 * 2 ^ 1) two_points ≡ some g) × (anf (8 * 2 ^ 1) g ≡ some two_points)
anf-anf_example = anf-anf 1 two_points

-- The instructions, as they are documented.
abbrev instructions : Avx2
unfolding lane_shift bit
instructions = record {
  slli_epi16 = λ x k i. lane_shift 16 k x i;
  slli_epi32 = λ x k i. lane_shift 32 k x i;
  slli_epi64 = λ x k i. lane_shift 64 k x i;
  slli_si256 = λ x k i. lane_shift 128 (8 * k) x i;
  permute2x128_08 = λ x i. lane_shift 256 128 x i;
  set1_epi32 = λ m i. bit m (i % 32);
  and_si256 = λ x y i. x i && y i;
  xor_si256 = λ x y i. xor (x i) (y i);
  slli_epi16_bits = λ x k i. refl;
  slli_epi32_bits = λ x k i. refl;
  slli_epi64_bits = λ x k i. refl;
  slli_si256_bits = λ x k i. refl;
  permute2x128_08_bits = λ x i lt. refl;
  set1_epi32_bits = λ m i. refl;
  and_si256_bits = λ x y i. refl;
  xor_si256_bits = λ x y i. refl;
}

anf_avx2-anf_example :
    (g : Bits) × (anf_avx2 instructions (32 * 2 ^ 1) two_points ≡ some g)
    × (anf (32 * 2 ^ 1) two_points ≡ some g)
anf_avx2-anf_example = anf_avx2-anf instructions 1 two_points

abbrev at_point : ℕ → Option Bits → Bool
at_point p none = false
at_point p (some g) = g p

-- The coefficient of the term of point 3, x0 x1: the point 0 alone is below it.
coefficient : at_point 3 (anf 8 two_points) ≡ true
unfolding anf word_loop block_loop for_loop load store transform_word masked xor_words and_mask
    shift_left bit combine
coefficient = refl
