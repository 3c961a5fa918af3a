-- ===== src/Et/NaiveSpec.antt =====
-- et/src/naive_vector.hpp: what each operator makes, and what it leaves alone.
use cosec_examples.Prelude.{
  ℕ, suc, ◌≤◌, ◌<◌, ◌≡◌, ◌≢◌, refl, sym, ◌∙◌, ap, subst, inl, inr, Bool, true, false, some, List,
  [], ◌==◌, length, get_elem?, set, replicate, length-replicate, get_elem?-set_ne, arith,
  Bool-cases,
}
use cosec_examples.Et.Memory.{
  Arithmetic, Address, Memory, Operand, lvalue, rvalue, address, assign, construct, allocate,
  move_out, Reading, of_one, of_two,
}
use cosec_examples.Et.Naive.{
  Result, and_then, newest, into_new, into_moved, into_named, binary, multiply_right, multiply_left,
}
use cosec_examples.Et.Loop.{
  get_elem?-some, Ahead, Transformed, transform-Transformed, assign_ne, assign-next,
}

-- An operand that may be written over is not below `bound`.
abbrev pub Free : ℕ → Operand → Type 0
Free bound (lvalue a) = Unit
Free bound (rvalue a) = bound ≤ a

module _ {A : Type 0} where
  -- A run has made a new vector of `n` elements that the reading gives, and has left the vectors below
  -- `bound` alone.
  pub record Made (reading : Reading A) (n bound : ℕ) (m : Memory A) (r : Result A) : Type 0 where
    pub after : Memory A
    pub at : Address
    pub run : r ≡ some (after, rvalue at)
    pub fresh : bound ≤ at
    pub below : at < after.next
    pub later : m.next ≤ after.next
    pub kept : (c : Address) → c < bound → after.elements c ≡ m.elements c
    pub size : length (after.elements at) ≡ n
    pub made : (j : ℕ) → j < n → get_elem? (after.elements at) j ≡ reading m j

  pub construct_self : (xs : List A) (m : Memory A) → (construct xs m).elements m.next ≡ xs
  unfolding construct
  construct_self xs m = ground arith

  pub construct_ne :
      (c : Address) (xs : List A) (m : Memory A)
      → c ≢ m.next
      → (construct xs m).elements c ≡ m.elements c
  unfolding construct
  construct_ne c xs m h = ground arith

  pub construct-next : (xs : List A) (m : Memory A) → (construct xs m).next ≡ suc m.next
  unfolding construct
  construct-next xs m = refl

  -- The reading gives an element in each of `n` rounds.
  abbrev pub Gives : Reading A → ℕ → Memory A → Type 0
  Gives reading n m = (j : ℕ) → j < n → (x : A) × (reading m j ≡ some x)

  pub into_new-Made :
      (ar : Arithmetic A) (reading : Reading A) (n bound : ℕ) (m : Memory A)
      → Ahead reading m.next
      → ((xs : List A) (j : ℕ) → reading (construct xs m) j ≡ reading m j)
      → Gives reading n m
      → bound ≤ m.next
      → Made reading n bound m (into_new ar reading n m)
  unfolding into_new allocate
  into_new-Made ar reading n bound m ahead apart gives low =
      let m1 : Memory A = construct (replicate n ar.uninitialised) m in
      let self : m1.elements m.next ≡ replicate n ar.uninitialised = construct_self _ m in
      let long : length (m1.elements m.next) ≡ n =
        ap length self ∙ length-replicate n ar.uninitialised in
      let (m', run, t) =
        transform-Transformed reading m.next n 0 m1 ahead (omega arith)
          (λ j p q. let (x, g) = gives j (omega arith) in (x, apart _ j ∙ g)) in
      let top : m'.next ≡ suc m.next = t.next ∙ construct-next _ m in
      record {
        after = m';
        at = m.next;
        run = ap (λ o. and_then o (newest m)) run;
        fresh = low;
        below = omega arith;
        later = omega arith;
        kept = λ c h. t.others c (omega arith) ∙ construct_ne c _ m (omega arith);
        size = t.size ∙ long;
        made = λ j h. t.written j (omega arith) (omega arith) ∙ apart _ j;
      }

  move_out-Made :
      (reading : Reading A) (a : Address) (n bound : ℕ) (m m' : Memory A)
      → Transformed reading a n 0 m m'
      → length (m.elements a) ≡ n
      → bound ≤ a
      → bound ≤ m.next
      → Made reading n bound m (newest m' (move_out a m'))
  unfolding move_out assign
  move_out-Made reading a n bound m m' t long low low' =
      let emptied : (assign a [] m').next ≡ m'.next = assign-next a [] m' in
      let self : (move_out a m').elements m'.next ≡ m'.elements a =
        construct_self (m'.elements a) (assign a [] m') in
      let top : (move_out a m').next ≡ suc m'.next = construct-next _ (assign a [] m') in
      record {
        after = move_out a m';
        at = m'.next;
        run = refl;
        fresh = omega (arith, t.next);
        below = omega arith;
        later = omega (arith, t.next);
        kept = λ c h.
            construct_ne c _ (assign a [] m') (omega (arith, t.next))
            ∙ assign_ne a c [] m' (omega arith)
            ∙ t.others c (omega arith);
        size = ap length self ∙ t.size ∙ long;
        made = λ j h. ap (λ xs. get_elem? xs j) self ∙ t.written j (omega arith) (omega arith);
      }

  -- In place: the operand is written over and handed on.
  into_moved-Made :
      (reading : Reading A) (a : Address) (n bound : ℕ) (m : Memory A)
      → Ahead reading a
      → Gives reading n m
      → length (m.elements a) ≡ n
      → bound ≤ a
      → bound ≤ m.next
      → Made reading n bound m (into_moved reading a n m)
  unfolding into_moved
  into_moved-Made reading a n bound m ahead gives long low low' =
      let (m', run, t) =
        transform-Transformed reading a n 0 m ahead (omega arith)
          (λ j p q. gives j (omega arith)) in
      subst (λ r. Made reading n bound m r)
        (sym (ap (λ o. and_then o (λ k. newest k (move_out a k))) run))
        (move_out-Made reading a n bound m m' t long low low')

  copy_out-Made :
      (reading : Reading A) (a : Address) (n bound : ℕ) (m m' : Memory A)
      → Transformed reading a n 0 m m'
      → length (m.elements a) ≡ n
      → bound ≤ a
      → bound ≤ m.next
      → Made reading n bound m (newest m' (construct (m'.elements a) m'))
  copy_out-Made reading a n bound m m' t long low low' =
      let self : (construct (m'.elements a) m').elements m'.next ≡ m'.elements a =
        construct_self (m'.elements a) m' in
      let top : (construct (m'.elements a) m').next ≡ suc m'.next = construct-next _ m' in
      record {
        after = construct (m'.elements a) m';
        at = m'.next;
        run = refl;
        fresh = omega (arith, t.next);
        below = omega arith;
        later = omega (arith, t.next);
        kept = λ c h. construct_ne c _ m' (omega (arith, t.next)) ∙ t.others c (omega arith);
        size = ap length self ∙ t.size ∙ long;
        made = λ j h. ap (λ xs. get_elem? xs j) self ∙ t.written j (omega arith) (omega arith);
      }

  into_named-Made :
      (im : Bool) (reading : Reading A) (a : Address) (n bound : ℕ) (m : Memory A)
      → Ahead reading a
      → Gives reading n m
      → length (m.elements a) ≡ n
      → bound ≤ a
      → bound ≤ m.next
      → Made reading n bound m (into_named im reading a n m)
  unfolding into_named into_moved
  into_named-Made true reading a n bound m ahead gives long low low' =
      into_moved-Made reading a n bound m ahead gives long low low'
  into_named-Made false reading a n bound m ahead gives long low low' =
      let (m', run, t) =
        transform-Transformed reading a n 0 m ahead (omega arith)
          (λ j p q. gives j (omega arith)) in
      subst (λ r. Made reading n bound m r)
        (sym (ap (λ o. and_then o (λ k. newest k (construct (k.elements a) k))) run))
        (copy_out-Made reading a n bound m m' t long low low')

  -- A write to an earlier element is not seen, whichever vector it is in.
  pub get_elem?-assign :
      (m : Memory A) (out c i j : ℕ) (x : A)
      → i < j
      → get_elem? ((assign out (set (m.elements out) i x) m).elements c) j
        ≡ get_elem? (m.elements c) j
  unfolding assign
  get_elem?-assign m out c i j x h = elim (Bool-cases (c == out)) [
    | inl e0 ↦
        let same : c ≡ out = ground arith in
        rw e0 (
          get_elem?-set_ne (m.elements out) x (λ q. absurd (omega arith))
          ∙ ap (λ b. get_elem? (m.elements b) j) (sym same))
    | inr e1 ↦ rw e1 refl
  ]

  of_two-Ahead : (op : A → A → A) (a b out : Address) → Ahead (of_two op a b) out
  of_two-Ahead op a b out m i j x h =
      rw (get_elem?-assign m out a i j x h, get_elem?-assign m out b i j x h) refl

  of_one-Ahead : (f : A → A) (a out : Address) → Ahead (of_one f a) out
  of_one-Ahead f a out m i j x h = rw (get_elem?-assign m out a i j x h) refl

  of_two-construct :
      (op : A → A → A) (a b : Address) (m : Memory A) (xs : List A) (j : ℕ)
      → a < m.next
      → b < m.next
      → of_two op a b (construct xs m) j ≡ of_two op a b m j
  of_two-construct op a b m xs j p q =
      rw (construct_ne a xs m (omega arith), construct_ne b xs m (omega arith)) refl

  of_one-construct :
      (f : A → A) (a : Address) (m : Memory A) (xs : List A) (j : ℕ)
      → a < m.next
      → of_one f a (construct xs m) j ≡ of_one f a m j
  of_one-construct f a m xs j p = rw (construct_ne a xs m (omega arith)) refl

  of_two-Gives :
      (op : A → A → A) (a b : Address) (n : ℕ) (m : Memory A)
      → length (m.elements a) ≡ n
      → length (m.elements b) ≡ n
      → Gives (of_two op a b) n m
  of_two-Gives op a b n m p q j h =
      let (x, e) = get_elem?-some (m.elements a) j (omega arith) in
      let (y, e') = get_elem?-some (m.elements b) j (omega arith) in (op x y, rw (e, e') refl)

  of_one-Gives :
      (f : A → A) (a : Address) (n : ℕ) (m : Memory A)
      → length (m.elements a) ≡ n
      → Gives (of_one f a) n m
  of_one-Gives f a n m p j h =
      let (x, e) = get_elem?-some (m.elements a) j (omega arith) in (f x, rw e refl)

  -- operator+ and operator- add element by element, whichever operand they write over.
  pub binary-Made :
      (ar : Arithmetic A) (im : Bool) (op : A → A → A) (v w : Operand) (n bound : ℕ) (m : Memory A)
      → length (m.elements (address v)) ≡ n
      → length (m.elements (address w)) ≡ n
      → address v < m.next
      → address w < m.next
      → Free bound v
      → Free bound w
      → bound ≤ m.next
      → Made (of_two op (address v) (address w)) n bound m (binary ar im op v w n m)
  unfolding binary
  binary-Made ar im op (lvalue a) (lvalue b) n bound m la lb pa pb fa fb low =
      into_new-Made ar (of_two op a b) n bound m (of_two-Ahead op a b m.next)
        (λ xs j. of_two-construct op a b m xs j pa pb) (of_two-Gives op a b n m la lb) low
  binary-Made ar im op (rvalue a) (lvalue b) n bound m la lb pa pb fa fb low =
      into_moved-Made (of_two op a b) a n bound m (of_two-Ahead op a b a)
        (of_two-Gives op a b n m la lb) la fa low
  binary-Made ar im op (lvalue a) (rvalue b) n bound m la lb pa pb fa fb low =
      into_named-Made im (of_two op a b) b n bound m (of_two-Ahead op a b b)
        (of_two-Gives op a b n m la lb) lb fb low
  binary-Made ar im op (rvalue a) (rvalue b) n bound m la lb pa pb fa fb low =
      into_moved-Made (of_two op a b) a n bound m (of_two-Ahead op a b a)
        (of_two-Gives op a b n m la lb) la fa low

  pub multiply_right-Made :
      (ar : Arithmetic A) (im : Bool) (v : Operand) (s : A) (n bound : ℕ) (m : Memory A)
      → length (m.elements (address v)) ≡ n
      → address v < m.next
      → Free bound v
      → bound ≤ m.next
      → Made (of_one (λ x. ar.multiplies x s) (address v)) n bound m (multiply_right ar im v s m)
  unfolding multiply_right
  multiply_right-Made ar im (lvalue a) s n bound m long p free low =
      let f = λ (x : A). ar.multiplies x s in
      rw long (
        into_new-Made ar (of_one f a) n bound m (of_one-Ahead f a m.next)
          (λ xs j. of_one-construct f a m xs j p) (of_one-Gives f a n m long) low)
  multiply_right-Made ar im (rvalue a) s n bound m long p free low =
      let f = λ (x : A). ar.multiplies x s in
      rw long (
        into_named-Made im (of_one f a) a n bound m (of_one-Ahead f a a) (of_one-Gives f a n m long)
          long free low)

  pub multiply_left-Made :
      (ar : Arithmetic A) (s : A) (v : Operand) (n bound : ℕ) (m : Memory A)
      → length (m.elements (address v)) ≡ n
      → address v < m.next
      → bound ≤ m.next
      → Made (of_one (ar.multiplies s) (address v)) n bound m (multiply_left ar s v m)
  unfolding multiply_left
  multiply_left-Made ar s v n bound m long p low = rw long (
      into_new-Made ar (of_one (ar.multiplies s) (address v)) n bound m
        (of_one-Ahead (ar.multiplies s) (address v) m.next)
        (λ xs j. of_one-construct (ar.multiplies s) (address v) m xs j p)
        (of_one-Gives (ar.multiplies s) (address v) n m long) low)
