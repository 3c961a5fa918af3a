-- ===== src/Anf.antt =====
-- anf/src/anf.cpp, anf_avx2.cpp: the coefficients of the algebraic normal form of a Boolean function, in
-- place. The bytes are the function's values, the bit of a point before those of the points above it;
-- a word is read from its bytes with the lowest byte first.
pub mod Loops
pub mod Stages
pub mod Polynomial
pub mod Blocks
pub mod Normal
pub mod Transform
pub mod Avx2
mod Tests
use cosec_examples.Prelude.{
  ℕ, zero, suc, ◌+◌, ◌-◌, ◌*◌, ◌/◌, ◌%◌, ◌^◌, Bool, true, false, not, ◌&&◌, Option, none, some, ltb,
  leb, ◌==◌, if◌then◌else◌,
}

-- The bits of a memory or a word, by their positions.
abbrev pub Bits : Type 0
Bits = ℕ → Bool

abbrev pub xor : Bool → Bool → Bool
xor true b = not b
xor false b = b

-- std::memcpy of a word from the byte `at`.
unfoldable pub load : Bits → ℕ → Bits
load f at i = f (8 * at + i)

-- std::memcpy of a word of `size` bytes to the byte `at`.
unfoldable pub store : ℕ → ℕ → Bits → Bits → Bits
store size at x f p = if leb (8 * at) p && ltb p (8 * at + 8 * size) then x (p - 8 * at) else f p

unfoldable pub bit : ℕ → ℕ → Bool
bit m i = m / 2 ^ i % 2 == 1

unfoldable pub shift_left : Bits → ℕ → Bits
shift_left x k i = if ltb i k then false else x (i - k)

unfoldable pub xor_words : Bits → Bits → Bits
xor_words x y i = xor (x i) (y i)

unfoldable pub and_mask : Bits → ℕ → Bits
and_mask x m i = x i && bit m i

-- x ^= (x<<k)&m;
unfoldable pub masked : ℕ → ℕ → Bits → Bits
masked k m x = xor_words x (and_mask (shift_left x k) m)

-- The lines between the two copies of a word.
unfoldable pub transform_word : Bits → Bits
transform_word x =
    let x1 = masked 1 0xaaaaaaaaaaaaaaaa x in
    let x2 = masked 2 0xcccccccccccccccc x1 in
    let x3 = masked 4 0xf0f0f0f0f0f0f0f0 x2 in
    let x4 = masked 8 0xff00ff00ff00ff00 x3 in
    let x5 = masked 16 0xffff0000ffff0000 x4 in xor_words x5 (shift_left x5 32)

-- for(i=first;i<bound;i=next(i)); nothing when the rounds are more than the fuel.
unfoldable pub for_loop : {S : Type 0} → ℕ → (ℕ → ℕ) → ℕ → ℕ → (ℕ → S → Option S) → S → Option S
for_loop zero next i bound body s = none
for_loop (suc fuel) next i bound body s =
    if ltb i bound
    then elim (body i s) [ none ↦ none | some t ↦ for_loop fuel next (next i) bound body t ]
    else some s

-- The body of the innermost loop; `add` is the addition of words.
unfoldable pub combine : (Bits → Bits → Bits) → ℕ → ℕ → ℕ → ℕ → Bits → Option Bits
combine add size i j k f =
    some (store size (i + j + k) (add (load f (j + k)) (load f (i + j + k))) f)

-- The loops over the words of `word` bytes, and over the blocks; both functions have these loops.
unfoldable pub word_loop : ℕ → (Bits → Bits) → ℕ → Bits → Option Bits
word_loop word transform size f =
    for_loop (suc size) (λ i. i + word) 0 size (λ i g. some (store word i (transform (load g i)) g))
      f

unfoldable pub block_loop : (Bits → Bits → Bits) → ℕ → ℕ → Bits → Option Bits
block_loop add word size f =
    for_loop (suc size) (λ i. i * 2) word size
      (λ i g.
        for_loop (suc size) (λ j. j + 2 * i) 0 size
          (λ j h. for_loop (suc i) (λ k. k + word) 0 i (combine add word i j) h) g)
      f

-- ce::anf
unfoldable pub anf : ℕ → Bits → Option Bits
anf size f = elim (word_loop 8 transform_word size f) [
  | none ↦ none
  | some g ↦ block_loop xor_words 8 size g
]
