-- ===== src/Anf/Polynomial.antt =====
-- anf/src: what the coefficients mean, independently of how they are computed.
use cosec_examples.Prelude.{
  le→leb, ltb→le, le→ltb, lt→leb, ℕ, zero, suc, ◌+◌, ◌-◌, ◌*◌, ◌%◌, ◌^◌, ◌≤◌, ◌<◌, ◌≡◌, refl, sym,
  ◌∙◌, ap, Bool, true, false, ltb, leb, if◌then◌else◌, arith, Bool-cases, ltb→lt, lt→ltb, leb→le,
  inl, inr,
}
use native.Mathlib.Nat.{two-pow-succ, mod-eq_of_lt, add-mul-mod_self_left, mod-le}
use cosec_examples.Anf.{Bits, xor}
use cosec_examples.Anf.Stages.{stage, stages}

abbrev pub above : ℕ → Bits → Bits
above k f q = f (q + k)

-- The value at a point of the polynomial in `n` variables with these coefficients: the last
-- variable is the bit `n - 1` of the point, and the coefficients from 2 ^ (n - 1) on are those of the terms with it.
unfoldable pub evaluate : ℕ → Bits → Bits
evaluate zero f p = f 0
evaluate (suc n) f p =
    let here = evaluate n f in
    let there = evaluate n (above (2 ^ n) f) in
    if ltb p (2 ^ n) then here p else xor (here (p - 2 ^ n)) (there (p - 2 ^ n))

pub xor_comm : (a b : Bool) → xor a b ≡ xor b a
xor_comm true true = refl
xor_comm true false = refl
xor_comm false true = refl
xor_comm false false = refl

xor_cancel : (a b : Bool) → xor a (xor a b) ≡ b
xor_cancel true true = refl
xor_cancel true false = refl
xor_cancel false true = refl
xor_cancel false false = refl

xor_swap : (a b c d : Bool) → xor (xor a b) (xor c d) ≡ xor (xor a c) (xor b d)
xor_swap true true true true = refl
xor_swap true true true false = refl
xor_swap true true false true = refl
xor_swap true true false false = refl
xor_swap true false true true = refl
xor_swap true false true false = refl
xor_swap true false false true = refl
xor_swap true false false false = refl
xor_swap false true true true = refl
xor_swap false true true false = refl
xor_swap false true false true = refl
xor_swap false true false false = refl
xor_swap false false true true = refl
xor_swap false false true false = refl
xor_swap false false false true = refl
xor_swap false false false false = refl

-- The value depends on the first 2 ^ n coefficients only.
pub evaluate-cong :
    (n : ℕ) (f g : Bits)
    → ((p : ℕ) → p < 2 ^ n → f p ≡ g p)
    → (p : ℕ) → evaluate n f p ≡ evaluate n g p
unfolding evaluate
evaluate-cong zero f g h p = h 0 (omega arith)
evaluate-cong (suc n) f g h p =
    let twice = two-pow-succ n in
    rw
      (
        evaluate-cong n f g (λ q lt. h q (omega (arith, lt, twice))) p,
        evaluate-cong n f g (λ q lt. h q (omega (arith, lt, twice))) (p - 2 ^ n),
        evaluate-cong n (above (2 ^ n) f) (above (2 ^ n) g)
            (λ q lt. h (q + 2 ^ n) (omega (arith, lt, twice))) (p - 2 ^ n),
      )
      refl

-- The polynomial of a sum is the sum.
evaluate-xor :
    (n : ℕ) (f g : Bits) (p : ℕ)
    → evaluate n (λ q. xor (f q) (g q)) p ≡ xor (evaluate n f p) (evaluate n g p)
unfolding evaluate
evaluate-xor zero f g p = refl
evaluate-xor (suc n) f g p = elim (Bool-cases (ltb p (2 ^ n))) [
  | inl low ↦ rw low (evaluate-xor n f g p)
  | inr up ↦
      rw
        (
          up,
          evaluate-xor n f g (p - 2 ^ n),
          evaluate-xor n (above (2 ^ n) f) (above (2 ^ n) g) (p - 2 ^ n),
        )
        (xor_swap (evaluate n f (p - 2 ^ n)) (evaluate n g (p - 2 ^ n))
          (evaluate n (above (2 ^ n) f) (p - 2 ^ n)) (evaluate n (above (2 ^ n) g) (p - 2 ^ n)))
]

evaluate-low : (n : ℕ) (f : Bits) (p : ℕ) → p < 2 ^ n → evaluate (suc n) f p ≡ evaluate n f p
unfolding evaluate
evaluate-low n f p lt = rw (lt→ltb p (2 ^ n) lt) refl

evaluate-high :
    (n : ℕ) (f : Bits) (p : ℕ)
    → evaluate (suc n) f (p + 2 ^ n) ≡ xor (evaluate n f p) (evaluate n (above (2 ^ n) f) p)
unfolding evaluate
evaluate-high n f p =
    let e : p + 2 ^ n - 2 ^ n ≡ p = omega arith in
    rw (le→ltb (p + 2 ^ n) (2 ^ n) (omega arith), e) refl

split_point : (n p : ℕ) → ltb p (2 ^ n) ≡ false → p ≡ p - 2 ^ n + 2 ^ n
split_point n p h = ground (arith, h)

-- The coefficients of the polynomial of the coefficients are the values.
pub evaluate-evaluate : (n : ℕ) (f : Bits) (p : ℕ) → p < 2 ^ n → evaluate n (evaluate n f) p ≡ f p
unfolding evaluate
evaluate-evaluate zero f p lt = ap f {x = 0} (omega (arith, lt))
evaluate-evaluate (suc n) f p lt =
    let twice = two-pow-succ n in
    let g = evaluate (suc n) f in
    let lower : (q : ℕ) → evaluate n g q ≡ evaluate n (evaluate n f) q =
      evaluate-cong n g (evaluate n f) (evaluate-low n f) in
    elim (Bool-cases (ltb p (2 ^ n))) [
      | inl low ↦
          let less = ltb→lt p (2 ^ n) low in
          evaluate-low n g p less ∙ lower p ∙ evaluate-evaluate n f p less
      | inr up ↦
          let q = p - 2 ^ n in
          let less : q < 2 ^ n = omega (arith, lt, twice) in
          let upper =
            evaluate-cong n (above (2 ^ n) g)
              (λ r. xor (evaluate n f r) (evaluate n (above (2 ^ n) f) r))
              (λ r _. evaluate-high n f r) q
            ∙ evaluate-xor n (evaluate n f) (evaluate n (above (2 ^ n) f)) q in
          ap (evaluate (suc n) g) (split_point n p up)
          ∙ evaluate-high n g q
          ∙ rw (lower q, upper)
              (xor_cancel (evaluate n (evaluate n f) q)
                  (evaluate n (evaluate n (above (2 ^ n) f)) q)
                ∙ evaluate-evaluate n (above (2 ^ n) f) q less
                ∙ ap f (sym (split_point n p up)))
    ]

pub multiple : (k n : ℕ) → k < n → (m : ℕ) × (2 ^ n ≡ 2 * 2 ^ k * m)
multiple k zero lt = absurd (omega (arith, lt))
multiple k (suc n) lt = elim (Bool-cases (ltb k n)) [
  | inl less ↦
      let (m, e) = multiple k n (ltb→lt k n less) in (2 * m, omega (arith, e, two-pow-succ n))
  | inr last ↦
      let same : k ≡ n = ground (arith, lt, last) in
      (1, omega (arith, two-pow-succ n, ap (λ j. 2 ^ j) same))
]

evaluate-zero : (f : Bits) (p : ℕ) → evaluate 0 f p ≡ f 0
unfolding evaluate
evaluate-zero f p = refl

-- A stage does not see where a whole number of its blocks is cut off.
stage-above :
    (d m base : ℕ) (f g : Bits)
    → base ≡ 2 * d * m
    → ((q : ℕ) → f (q + base) ≡ g q)
    → (q : ℕ) → stage d f (q + base) ≡ stage d g q
unfolding stage
stage-above d m base f g e h q =
    let aligned : (q + base) % (2 * d) ≡ q % (2 * d) =
      ap (λ b. (q + b) % (2 * d)) e ∙ add-mul-mod_self_left q (2 * d) m in
    rw (aligned, h q)
      (elim (Bool-cases (leb d (q % (2 * d)))) [
        | inl up ↦
            let le : d ≤ q = omega (arith, leb→le d (q % (2 * d)) up, mod-le q (2 * d)) in
            rw up (
              ap (xor (g q))
                (ap f {x = q + base - d} {y = q - d + base} (omega (arith, le)) ∙ h (q - d)))
        | inr low ↦ rw low refl
      ])

stages-above :
    (k n : ℕ) (f : Bits) → k ≤ n → (q : ℕ) → stages k f (q + 2 ^ n) ≡ stages k (above (2 ^ n) f) q
unfolding stages
stages-above zero n f le q = refl
stages-above (suc k) n f le q =
    let (m, e) = multiple k n (omega (arith, le)) in
    stage-above (2 ^ k) m (2 ^ n) (stages k f) (stages k (above (2 ^ n) f)) e
      (stages-above k n f (omega (arith, le))) q

-- The stages, one after the other, compute the values of the polynomial.
pub stages-evaluate : (n : ℕ) (f : Bits) (p : ℕ) → p < 2 ^ n → stages n f p ≡ evaluate n f p
unfolding stages stage
stages-evaluate zero f p lt = ap f {y = 0} (omega (arith, lt)) ∙ sym (evaluate-zero f p)
stages-evaluate (suc n) f p lt =
    let twice = two-pow-succ n in
    let whole : p % (2 * 2 ^ n) ≡ p = mod-eq_of_lt (omega (arith, lt, twice)) in
    elim (Bool-cases (ltb p (2 ^ n))) [
      | inl low ↦
          let less = ltb→lt p (2 ^ n) low in
          rw (whole, lt→leb (2 ^ n) p less)
            (stages-evaluate n f p less ∙ sym (evaluate-low n f p less))
      | inr up ↦
          let q = p - 2 ^ n in
          let less : q < 2 ^ n = omega (arith, lt, twice) in
          rw (whole, le→leb (2 ^ n) p (ltb→le p (2 ^ n) up))
            (rw
              (
                ap (stages n f) (split_point n p up) ∙ stages-above n n f (omega arith) q,
                stages-evaluate n (above (2 ^ n) f) q less,
                stages-evaluate n f q less,
              )
              (xor_comm (evaluate n (above (2 ^ n) f) q) (evaluate n f q)
                ∙ sym (evaluate-high n f q)
                ∙ ap (evaluate (suc n) f) (sym (split_point n p up))))
    ]
