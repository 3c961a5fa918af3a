-- ===== src/Anf/Transform.antt =====
-- anf/src: both loops together compute the coefficients, and computing them twice gives the values back.
use cosec_examples.Prelude.{
  le→ltb, ltb→le, ℕ, zero, suc, ◌+◌, ◌-◌, ◌*◌, ◌^◌, ◌≤◌, ◌<◌, ◌≡◌, refl, sym, ◌∙◌, ap, true, Option,
  some, ltb, arith, Bool-cases, ltb→lt, lt→ltb, inl, inr, subst, fun_ext,
}
use native.Mathlib.Nat.{two-pow-succ, one-le-pow, pow-le-pow_right}
use cosec_examples.Anf.{
  Bits, xor_words, for_loop, combine, word_loop, block_loop, transform_word, anf,
}
use cosec_examples.Anf.Loops.{for_loop-P, less, within, Until}
use cosec_examples.Anf.Stages.{stage, stages, word_loop-stages}
use cosec_examples.Anf.Polynomial.{
  multiple, evaluate, evaluate-cong, evaluate-evaluate, stages-evaluate,
}
use cosec_examples.Anf.Normal.{blocks}

-- The stages that are done after `r` rounds, when a word has `w` stages.
plus : ℕ → ℕ → ℕ
plus zero w = w
plus (suc r) w = suc (plus r w)

plus-eq-add : (r w : ℕ) → plus r w ≡ r + w
unfolding plus
plus-eq-add zero w = omega arith
plus-eq-add (suc r) w = omega (arith, plus-eq-add r w)

le-two_pow : (m : ℕ) → m ≤ 2 ^ m
le-two_pow zero = omega arith
le-two_pow (suc m) = omega (arith, le-two_pow m, two-pow-succ m, one-le-pow m 2)

two_pow_lt : (r m : ℕ) → r < m → 2 ^ r < 2 ^ m
two_pow_lt r m lt = omega (
  arith,
  pow-le-pow_right {n = 2} (omega arith) {i = suc r} {j = m} lt,
  two-pow-succ r,
  one-le-pow r 2 (omega arith),
)

stage-cong :
    (d bound : ℕ) (f g : Bits)
    → ((p : ℕ) → p < bound → f p ≡ g p)
    → (p : ℕ) → p < bound
    → stage d f p ≡ stage d g p
unfolding stage
stage-cong d bound f g h p lt = rw (h p lt, h (p - d) (omega (arith, lt))) refl

-- The first bits of `g` are those of `a`, and the others those of `f`.
abbrev pub Becomes : ℕ → Bits → Bits → Bits → Type 0
Becomes bound a f g = ((p : ℕ) → p < bound → g p ≡ a p) × ((p : ℕ) → bound ≤ p → g p ≡ f p)

pub Until-Becomes : (bound : ℕ) (a f g : Bits) → Until bound a f g → Becomes bound a f g
Until-Becomes bound a f g u =
    (λ p lt. u p ∙ rw (lt→ltb p bound lt) refl, λ p le. u p ∙ rw (le→ltb p bound le) refl)

-- Words of `word` bytes that make the first `w` stages.
module _ (word w : ℕ) (positive : 0 < word) (width : 8 * word ≡ 2 ^ w) (m : ℕ) (f : Bits) where
  reach : (r : ℕ) → 8 * (word * 2 ^ r) ≡ 2 ^ plus r w
  unfolding plus
  reach zero = omega (arith, width)
  reach (suc r) =
      omega (arith, reach r, ap (λ t. word * t) (two-pow-succ r), two-pow-succ (plus r w))

  abbrev Reached : ℕ → Bits → Type 0
  Reached r g = Becomes (8 * (word * 2 ^ m)) (stages (plus r w) f) f g

  round_body : ℕ → Bits → Option Bits
  round_body i g =
      for_loop (suc (word * 2 ^ m)) (λ j. j + 2 * i) 0 (word * 2 ^ m)
        (λ j h. for_loop (suc i) (λ k. k + word) 0 i (combine xor_words word i j) h) g

  round :
      (r : ℕ) (g : Bits)
      → r < m
      → Reached r g
      → (t : Bits) × (round_body (word * 2 ^ r) g ≡ some t) × Reached (suc r) t
  unfolding plus stages round_body
  round r g lt (at, kept) =
      let i = word * 2 ^ r in
      let (count, e) = multiple r m lt in
      let size : word * 2 ^ m ≡ 2 * i * count = omega (arith, ap (λ t. word * t) e) in
      let some_words = one-le-pow r 2 (omega arith) in
      let positive_i = less word 0 (2 ^ r) positive some_words in
      let (t, run, u) =
        subst
          (λ b.
            (t : Bits) × (for_loop (suc b) (λ j. j + 2 * i) 0 b
                (λ j h. for_loop (suc i) (λ k. k + word) 0 i (combine xor_words word i j) h) g
              ≡ some t)
            × Until (8 * b) (stage (8 * i) g) g t)
          (sym size)
          (blocks word i (2 ^ r) positive some_words refl g count (suc (2 * i * count))
            (within (2 * i) count (omega (arith, positive_i)))) in
      let (now, still) = Until-Becomes (8 * (word * 2 ^ m)) (stage (8 * i) g) g t u in
      (
        t,
        run,
        (
          λ p low.
              now p low
              ∙ ap (λ d. stage d g p) (reach r)
              ∙ stage-cong (2 ^ plus r w) (8 * (word * 2 ^ m)) g (stages (plus r w) f) at p low,
          λ p high. still p high ∙ kept p high,
        ),
      )

  pub block_loop-Becomes :
      (g : Bits)
      → Becomes (8 * (word * 2 ^ m)) (stages w f) f g
      → (t : Bits) × (block_loop xor_words word (word * 2 ^ m) g ≡ some t)
        × Becomes (8 * (word * 2 ^ m)) (stages (m + w) f) f t
  unfolding block_loop round_body plus
  block_loop-Becomes g h =
      let (t, run, u) =
        for_loop-P Reached (λ r. word * 2 ^ r) (λ i. i * 2) m (word * 2 ^ m) round_body
          (λ r. omega (arith, ap (λ t. word * t) (two-pow-succ r)))
          (λ r lt. less word (2 ^ r) (2 ^ m) positive (two_pow_lt r m lt)) (omega arith) round
          (suc (word * 2 ^ m)) word g (omega arith)
          (omega (arith, le-two_pow m, within word (2 ^ m) positive)) h in
      (t, run, subst (λ n. Becomes (8 * (word * 2 ^ m)) (stages n f) f t) (plus-eq-add m w) u)

anf-run :
    (size : ℕ) (f g : Bits)
    → word_loop 8 transform_word size f ≡ some g
    → anf size f ≡ block_loop xor_words 8 size g
unfolding anf
anf-run size f g h = ground (arith, h)

-- anf of 2 ^ m words.
pub anf-stages :
    (m : ℕ) (f : Bits)
    → (g : Bits) × (anf (8 * 2 ^ m) f ≡ some g) × Becomes (8 * (8 * 2 ^ m)) (stages (m + 6) f) f g
anf-stages m f =
    let (g, run, u) = word_loop-stages (2 ^ m) f in
    let (t, run', h) =
      block_loop-Becomes 8 6 (omega arith) refl m f g
        (Until-Becomes (8 * (8 * 2 ^ m)) (stages 6 f) f g u) in
    (t, anf-run (8 * 2 ^ m) f g run ∙ run', h)

-- The number of bits.
points : (m : ℕ) → 8 * (8 * 2 ^ m) ≡ 2 ^ (m + 6)
points m = reach 8 6 (omega arith) refl m (λ p. true) m ∙ ap (λ n. 2 ^ n) (plus-eq-add m 6)

-- On 8 * 2 ^ m bytes, the values of a Boolean function of m + 6 variables, anf has a result: the
-- coefficients of the polynomial whose values they are; no other memory changes.
pub anf-evaluate :
    (m : ℕ) (f : Bits)
    → (g : Bits) × (anf (8 * 2 ^ m) f ≡ some g)
      × ((p : ℕ) → p < 8 * (8 * 2 ^ m) → evaluate (m + 6) g p ≡ f p)
      × ((p : ℕ) → 8 * (8 * 2 ^ m) ≤ p → g p ≡ f p)
anf-evaluate m f =
    let (g, run, (low, high)) = anf-stages m f in
    let size = points m in
    let coefficients : (q : ℕ) → q < 2 ^ (m + 6) → g q ≡ evaluate (m + 6) f q =
      λ q lt. low q (omega (arith, lt, size)) ∙ stages-evaluate (m + 6) f q lt in
    (
      g,
      run,
      (λ p lt.
          evaluate-cong (m + 6) g (evaluate (m + 6) f) coefficients p
          ∙ evaluate-evaluate (m + 6) f p (omega (arith, lt, size))),
      high,
    )

-- Applied twice, anf gives the memory back.
pub anf-anf :
    (m : ℕ) (f : Bits) → (g : Bits) × (anf (8 * 2 ^ m) f ≡ some g) × (anf (8 * 2 ^ m) g ≡ some f)
anf-anf m f =
    let (g, run, (low, high)) = anf-stages m f in
    let (h, run', (low', high')) = anf-stages m g in
    let size = points m in
    let coefficients : (q : ℕ) → q < 2 ^ (m + 6) → g q ≡ evaluate (m + 6) f q =
      λ q lt. low q (omega (arith, lt, size)) ∙ stages-evaluate (m + 6) f q lt in
    let back : (p : ℕ) → h p ≡ f p = λ p. elim (Bool-cases (ltb p (8 * (8 * 2 ^ m)))) [
      | inl b ↦
          let lt = ltb→lt p (8 * (8 * 2 ^ m)) b in
          let lt' : p < 2 ^ (m + 6) = omega (arith, lt, size) in
          low' p lt
          ∙ stages-evaluate (m + 6) g p lt'
          ∙ evaluate-cong (m + 6) g (evaluate (m + 6) f) coefficients p
          ∙ evaluate-evaluate (m + 6) f p lt'
      | inr b ↦ let le = ltb→le p (8 * (8 * 2 ^ m)) b in high' p le ∙ high p le
    ] in
    (g, run, run' ∙ ap some (fun_ext back))
