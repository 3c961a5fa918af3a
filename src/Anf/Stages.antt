-- ===== src/Anf/Stages.antt =====
-- anf/src/anf.cpp: the shifts and masks within a word are the first six stages of the transform.
use cosec_examples.Prelude.{
  le→ltb, ℕ, zero, suc, ◌+◌, ◌-◌, ◌*◌, ◌%◌, ◌^◌, ◌≤◌, ◌<◌, ◌≡◌, refl, ◌∙◌, ap, Bool, true, false,
  not, ◌&&◌, some, leb, if◌then◌else◌, arith, Bool-cases, leb→le, inl, inr,
}
use cosec_examples.Anf.{
  Bits, xor, load, bit, shift_left, xor_words, and_mask, masked, transform_word, word_loop,
}
use native.Mathlib.Nat.{mod-le}
use cosec_examples.Anf.Loops.{Until, word_loop-Until}

-- In each block of twice `d` bits, the lower half is added to the upper half.
unfoldable pub stage : ℕ → Bits → Bits
stage d f p = if leb d (p % (2 * d)) then xor (f p) (f (p - d)) else f p

-- The first `n` stages.
unfoldable pub stages : ℕ → Bits → Bits
stages zero f = f
stages (suc n) f = stage (2 ^ n) (stages n f)

abbrev pub same : Bool → Bool → Bool
same true b = b
same false b = not b

unfoldable pub all_below : ℕ → (ℕ → Bool) → Bool
all_below zero p = true
all_below (suc n) p = p n && all_below n p

pub all_below_sound : (n : ℕ) (p : ℕ → Bool) (x : ℕ) → all_below n p ≡ true → x < n → p x ≡ true
unfolding all_below
all_below_sound zero p x h lt = absurd (omega (arith, lt))
all_below_sound (suc n) p x h lt = ground (arith, h, lt, all_below_sound n p x)

pub same→≡ : (a b : Bool) → same a b ≡ true → a ≡ b
same→≡ true true h = refl
same→≡ true false h = cc
same→≡ false true h = cc
same→≡ false false h = refl

-- The mask of a stage, checked bit by bit.
abbrev is_mask : ℕ → ℕ → Bool
is_mask d m = all_below 64 (λ i. same (bit m i) (leb d (i % (2 * d))))

mask_bit : (d m i : ℕ) → is_mask d m ≡ true → i < 64 → bit m i ≡ leb d (i % (2 * d))
mask_bit d m i h lt = same→≡ _ _ (all_below_sound 64 _ i h lt)

mask_1 : is_mask 1 0xaaaaaaaaaaaaaaaa ≡ true
unfolding all_below bit
mask_1 = refl

mask_2 : is_mask 2 0xcccccccccccccccc ≡ true
unfolding all_below bit
mask_2 = refl

mask_4 : is_mask 4 0xf0f0f0f0f0f0f0f0 ≡ true
unfolding all_below bit
mask_4 = refl

mask_8 : is_mask 8 0xff00ff00ff00ff00 ≡ true
unfolding all_below bit
mask_8 = refl

mask_16 : is_mask 16 0xffff0000ffff0000 ≡ true
unfolding all_below bit
mask_16 = refl

-- A word holds the bits of a memory.
abbrev pub Holds : ℕ → ℕ → Bits → Bits → Type 0
Holds bits base f x = (i : ℕ) → i < bits → x i ≡ f (base + i)

pub xor-false : (a b : Bool) → xor a (b && false) ≡ a
xor-false true true = refl
xor-false true false = refl
xor-false false true = refl
xor-false false false = refl

pub and-true : (b : Bool) → b && true ≡ b
and-true true = refl
and-true false = refl

-- In the upper half of a block the bit `d` below is in the word.
pub upper : (d i : ℕ) → leb d (i % (2 * d)) ≡ true → d ≤ i
upper d i h = omega (arith, leb→le d (i % (2 * d)) h, mod-le i (2 * d))

shifted-Holds :
    (d base i : ℕ) (f x : Bits)
    → Holds 64 base f x
    → i < 64
    → leb d (i % (2 * d)) ≡ true
    → shift_left x d i ≡ f (base + i - d)
unfolding shift_left
shifted-Holds d base i f x h lt up =
    let le = upper d i up in
    rw (le→ltb i d le) (
      h (i - d) (omega (arith, lt))
      ∙ ap f {x = base + (i - d)} {y = base + i - d} (omega (arith, le)))

masked-Holds :
    (d m base : ℕ) (f x : Bits)
    → is_mask d m ≡ true
    → ((i : ℕ) → (base + i) % (2 * d) ≡ i % (2 * d))
    → Holds 64 base f x
    → Holds 64 base (stage d f) (masked d m x)
unfolding masked xor_words and_mask stage
masked-Holds d m base f x mask aligned h i lt =
    rw (mask_bit d m i mask lt, aligned i, h i lt)
      (elim (Bool-cases (leb d (i % (2 * d)))) [
        | inl up ↦ rw (up, and-true (shift_left x d i), shifted-Holds d base i f x h lt up) refl
        | inr low ↦ rw (low, xor-false (f (base + i)) (shift_left x d i)) refl
      ])

unshifted : (x : Bits) (i : ℕ) → i < 64 → leb 32 (i % 64) ≡ false → shift_left x 32 i ≡ false
unfolding shift_left
unshifted x i lt low = ground (arith, lt, low)

-- The last shift needs no mask.
last-Holds :
    (base : ℕ) (f x : Bits)
    → ((i : ℕ) → (base + i) % 64 ≡ i % 64)
    → Holds 64 base f x
    → Holds 64 base (stage 32 f) (xor_words x (shift_left x 32))
unfolding xor_words stage
last-Holds base f x aligned h i lt =
    rw (aligned i, h i lt)
      (elim (Bool-cases (leb 32 (i % 64))) [
        | inl up ↦ rw (up, shifted-Holds 32 base i f x h lt up) refl
        | inr low ↦ rw (low, unshifted x i lt low) (xor-false (f (base + i)) true)
      ])

transform_word-Holds :
    (c : ℕ) (f : Bits) → Holds 64 (8 * (8 * c)) (stages 6 f) (transform_word (load f (8 * c)))
unfolding transform_word stages load
transform_word-Holds c f =
    let base = 8 * (8 * c) in
    let h0 : Holds 64 (8 * (8 * c)) f (load f (8 * c)) = λ i lt. refl in
    let f1 = stage 1 f in
    let x1 = masked 1 0xaaaaaaaaaaaaaaaa (load f (8 * c)) in
    let h1 =
      masked-Holds 1 0xaaaaaaaaaaaaaaaa base f (load f (8 * c)) mask_1 (λ i. omega arith) h0 in
    let f2 = stage 2 f1 in
    let x2 = masked 2 0xcccccccccccccccc x1 in
    let h2 = masked-Holds 2 0xcccccccccccccccc base f1 x1 mask_2 (λ i. omega arith) h1 in
    let f3 = stage 4 f2 in
    let x3 = masked 4 0xf0f0f0f0f0f0f0f0 x2 in
    let h3 = masked-Holds 4 0xf0f0f0f0f0f0f0f0 base f2 x2 mask_4 (λ i. omega arith) h2 in
    let f4 = stage 8 f3 in
    let x4 = masked 8 0xff00ff00ff00ff00 x3 in
    let h4 = masked-Holds 8 0xff00ff00ff00ff00 base f3 x3 mask_8 (λ i. omega arith) h3 in
    let h5 = masked-Holds 16 0xffff0000ffff0000 base f4 x4 mask_16 (λ i. omega arith) h4 in
    last-Holds base (stage 16 f4) (masked 16 0xffff0000ffff0000 x4) (λ i. omega arith) h5

-- The loop over the words makes the first six stages.
pub word_loop-stages :
    (n : ℕ) (f : Bits)
    → (g : Bits) × (word_loop 8 transform_word (8 * n) f ≡ some g)
      × Until (8 * (8 * n)) (stages 6 f) f g
word_loop-stages n f =
    word_loop-Until 8 (omega arith) transform_word f (stages 6 f)
      (λ c i lt. transform_word-Holds c f i lt) n
