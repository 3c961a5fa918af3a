-- ===== src/Et/Loop.antt =====
-- What std::transform leaves in memory, also where it writes over what it reads.
use cosec_examples.Prelude.{
  ℕ, zero, suc, ◌+◌, ◌≤◌, ◌<◌, ◌≡◌, ◌≢◌, refl, sym, ◌∙◌, ap, subst, none, some, List, [], ◌∷◌,
  length, get_elem?, set, length-set, get_elem?-set_self, get_elem?-set_ne, arith, dec_lt,
}
use cosec_examples.Et.Memory.{Address, Memory, assign, Reading, transform}

module _ {A : Type 0} where
  -- Lists with the same elements at each index are one.
  pub list_ext : (xs ys : List A) → ((i : ℕ) → get_elem? xs i ≡ get_elem? ys i) → xs ≡ ys
  list_ext [] [] h = refl
  list_ext [] (y ∷ ys) h = absurd (cc (h 0))
  list_ext (x ∷ xs) [] h = absurd (cc (h 0))
  list_ext (x ∷ xs) (y ∷ ys) h =
      let same : x ≡ y = cc (h 0) in
      let rest : xs ≡ ys = list_ext xs ys (λ i. h (suc i)) in rw (same, rest) refl

  pub get_elem?-none : (xs : List A) (i : ℕ) → length xs ≤ i → get_elem? xs i ≡ none
  get_elem?-none [] i h = refl
  get_elem?-none (x ∷ xs) zero h = absurd (omega arith)
  get_elem?-none (x ∷ xs) (suc i) h = get_elem?-none xs i (omega arith)

  pub get_elem?-some : (xs : List A) (i : ℕ) → i < length xs → (x : A) × (get_elem? xs i ≡ some x)
  get_elem?-some [] i h = absurd (omega arith)
  get_elem?-some (x ∷ xs) zero h = (x, refl)
  get_elem?-some (x ∷ xs) (suc i) h = get_elem?-some xs i (omega arith)

  -- What a round reads does not change by what earlier rounds write.
  abbrev pub Ahead : Reading A → Address → Type 0
  Ahead reading out =
      (m : Memory A) (i j : ℕ) (x : A)
      → i < j
      → reading (assign out (set (m.elements out) i x) m) j ≡ reading m j

  -- The loop from round `i` on has put what the reading gives for its rounds into `out`.
  pub record Transformed (reading : Reading A) (out : Address) (n i : ℕ) (m m' : Memory A)
      : Type 0 where
    pub others : (c : Address) → c ≢ out → m'.elements c ≡ m.elements c
    pub next : m'.next ≡ m.next
    pub size : length (m'.elements out) ≡ length (m.elements out)
    pub done : (j : ℕ) → j < i → get_elem? (m'.elements out) j ≡ get_elem? (m.elements out) j
    pub written : (j : ℕ) → i ≤ j → j < i + n → get_elem? (m'.elements out) j ≡ reading m j

  pub assign_self : (a : Address) (xs : List A) (m : Memory A) → (assign a xs m).elements a ≡ xs
  unfolding assign
  assign_self a xs m = ground arith

  pub assign-next : (a : Address) (xs : List A) (m : Memory A) → (assign a xs m).next ≡ m.next
  unfolding assign
  assign-next a xs m = refl

  pub assign_ne :
      (a c : Address) (xs : List A) (m : Memory A)
      → c ≢ a
      → (assign a xs m).elements c ≡ m.elements c
  unfolding assign
  assign_ne a c xs m h = ground arith

  transform-suc :
      (reading : Reading A) (out : Address) (n i : ℕ) (x : A) (m : Memory A)
      → reading m i ≡ some x
      → transform reading out (suc n) i m
        ≡ transform reading out n (suc i) (assign out (set (m.elements out) i x) m)
  unfolding transform
  transform-suc reading out n i x m e = rw (e, transform) refl

  pub transform-Transformed :
      (reading : Reading A) (out : Address) (n i : ℕ) (m : Memory A)
      → Ahead reading out
      → i + n ≤ length (m.elements out)
      → ((j : ℕ) → i ≤ j → j < i + n → (x : A) × (reading m j ≡ some x))
      → (m' : Memory A) × (transform reading out n i m ≡ some m') × Transformed reading out n i m m'
  unfolding transform
  transform-Transformed reading out zero i m ahead room gives = (
    m,
    refl,
    record {
      others = λ c h. refl;
      next = refl;
      size = refl;
      done = λ j h. refl;
      written = λ j p q. absurd (omega arith);
    },
  )
  transform-Transformed reading out (suc n) i m ahead room gives =
      let (x, e) = gives i (omega arith) (omega arith) in
      let m1 : Memory A = assign out (set (m.elements out) i x) m in
      let self : m1.elements out ≡ set (m.elements out) i x = assign_self out _ m in
      let long : length (m1.elements out) ≡ length (m.elements out) =
        ap length self ∙ length-set (m.elements out) i x in
      let here : get_elem? (m1.elements out) i ≡ some x =
        ap (λ xs. get_elem? xs i) self ∙ get_elem?-set_self (m.elements out) i x (omega arith) in
      let (m', run, t) =
        transform-Transformed reading out n (suc i) m1 ahead (omega arith)
          (λ j p q. let (y, g) = gives j (omega arith) (omega arith) in (y, ahead m i j x p ∙ g)) in
      (
        m',
        transform-suc reading out n i x m e ∙ run,
        record {
          others = λ c h. t.others c h ∙ assign_ne out c _ m h;
          next = t.next ∙ assign-next out _ m;
          size = t.size ∙ long;
          done = λ j h.
              t.done j (omega arith)
              ∙ ap (λ xs. get_elem? xs j) self
              ∙ get_elem?-set_ne (m.elements out) x (λ q. absurd (omega arith));
          written = λ j p q. elim (dec_lt i j) [
            | yes more ↦ t.written j more (omega arith) ∙ ahead m i j x more
            | no stop ↦
                let same : i ≡ j = omega arith in
                t.done j (omega arith)
                ∙ subst (λ k. get_elem? (m1.elements out) k ≡ reading m k) same (here ∙ sym e)
          ];
        },
      )
