-- ===== src/Anf/Loops.antt =====
-- anf/src: the rule of a for loop, and the loop over the words.
use cosec_examples.Prelude.{
  le→ltb, ℕ, zero, suc, ◌+◌, ◌-◌, ◌*◌, ◌≤◌, ◌<◌, ◌≡◌, refl, sym, ◌∙◌, ap, Bool, true, false, ◌&&◌,
  Option, some, ltb, leb, if◌then◌else◌, arith, Bool-cases, ltb→lt, lt→ltb, inl, inr, fun_ext,
  subst,
}
use cosec_examples.Anf.{Bits, load, store, for_loop, word_loop}

-- A loop of `n` rounds, whose index is `at c` in round `c`, with enough fuel: it ends, and with the
-- invariant of the end.
module _ {S : Type 0} (P : ℕ → S → Type 0) (at next : ℕ → ℕ) (n bound : ℕ) (body : ℕ → S → Option S)
    (steps : (c : ℕ) → at (suc c) ≡ next (at c)) (runs : (c : ℕ) → c < n → at c < bound)
    (ends : bound ≤ at n)
    (keep : (c : ℕ) (s : S)
      → c < n
      → P c s
      → (t : S) × (body (at c) s ≡ some t) × P (suc c) t) where
  step_on :
      (fuel i : ℕ) (s t : S)
      → ltb i bound ≡ true
      → body i s ≡ some t
      → for_loop (suc fuel) next i bound body s ≡ for_loop fuel next (next i) bound body t
  unfolding for_loop
  step_on fuel i s t h e = rw (h, e) refl

  stops :
      (fuel i : ℕ) (s : S) → ltb i bound ≡ false → for_loop (suc fuel) next i bound body s ≡ some s
  unfolding for_loop
  stops fuel i s h = rw h refl

  rounds :
      (fuel c i : ℕ) (s : S)
      → i ≡ at c
      → c ≤ n
      → n - c < fuel
      → P c s
      → (t : S) × (for_loop fuel next i bound body s ≡ some t) × P n t
  rounds zero c i s e le lt h = absurd (omega (arith, lt))
  rounds (suc fuel) c i s e le lt h = elim (Bool-cases (ltb c n)) [
    | inl more ↦
        let less = ltb→lt c n more in
        let (t, run, ht) = keep c s less h in
        let (u, run', hu) =
          rounds fuel (suc c) (next i) t (ap next e ∙ sym (steps c)) (omega (arith, less))
            (omega (arith, lt, less)) ht in
        (
          u,
          step_on fuel i s t (lt→ltb i bound (omega (arith, e, runs c less)))
                (ap (λ k. body k s) e ∙ run)
              ∙ run',
          hu,
        )
    | inr less ↦
        let same : c ≡ n = ground (arith, le, less) in
        let past : bound ≤ i = omega (arith, ends, e, ap at same) in
        (s, stops fuel i s (le→ltb i bound past), subst (λ k. P k s) same h)
  ]

  -- From the start.
  pub for_loop-P :
      (fuel first : ℕ) (s : S)
      → first ≡ at 0
      → n < fuel
      → P 0 s
      → (t : S) × (for_loop fuel next first bound body s ≡ some t) × P n t
  for_loop-P fuel first s e lt h = rounds fuel 0 first s e (omega arith) (omega (arith, lt)) h

pub less : (w c n : ℕ) → 0 < w → c < n → w * c < w * n
less w c n h lt = grind arith

pub within : (w n : ℕ) → 0 < w → n < suc (w * n)
within w n h = grind arith

-- A change of the first bits.
abbrev pub Until : ℕ → Bits → Bits → Bits → Type 0
Until m a f g = (p : ℕ) → g p ≡ (if ltb p m then a p else f p)

pub extended :
    (base size next p : ℕ) (old new kept : Bool) (x result : Bits)
    → next ≡ base + size
    → old ≡ (if ltb p base then new else kept)
    → result p ≡ new
    → ((i : ℕ) → i < size → x i ≡ result (base + i))
    → (if leb base p && ltb p (base + size) then x (p - base) else old)
      ≡ (if ltb p next then new else kept)
extended base size next p old new kept x result e h r each =
    ground (arith, e, h, each (p - base), moved)
  where
    moved : base ≤ p → result (base + (p - base)) ≡ new
    moved le = ap result {x = base + (p - base)} {y = p} (omega (arith, le)) ∙ r

-- Transforming the words one after the other.
module _ (word : ℕ) (positive : 0 < word) (transform : Bits → Bits) (f result : Bits)
    (each : (c i : ℕ)
      → i < 8 * word
      → transform (load f (word * c)) i ≡ result (8 * (word * c) + i)) where
  unread :
      (c : ℕ) (g : Bits) → Until (8 * (word * c)) result f g → load g (word * c) ≡ load f (word * c)
  unfolding load
  unread c g h = fun_ext (λ i.
      h (8 * (word * c) + i) ∙ rw (le→ltb (8 * (word * c) + i) (8 * (word * c)) (omega arith)) refl)

  one_word :
      (c : ℕ) (g : Bits)
      → Until (8 * (word * c)) result f g
      → Until
          (8 * (word * suc c))
          result
          f
          (store word (word * c) (transform (load g (word * c))) g)
  unfolding store
  one_word c g h p = rw (unread c g h) (
      extended (8 * (word * c)) (8 * word) (8 * (word * suc c)) p (g p) (result p) (f p)
        (transform (load f (word * c))) result (omega arith) (h p) refl (each c))

  pub word_loop-Until :
      (n : ℕ)
      → (g : Bits) × (word_loop word transform (word * n) f ≡ some g)
        × Until (8 * (word * n)) result f g
  unfolding word_loop
  word_loop-Until n =
      for_loop-P (λ c g. Until (8 * (word * c)) result f g) (λ c. word * c) (λ i. i + word) n
        (word * n) _ (λ c. omega arith) (λ c h. less word c n positive h) (omega arith)
        (λ c g _ h. (_, refl, one_word c g h)) (suc (word * n)) 0 f (omega arith)
        (within word n positive) (λ p. rw (le→ltb p (8 * (word * 0)) (omega arith)) refl)
