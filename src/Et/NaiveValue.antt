-- ===== src/Et/NaiveValue.antt =====
-- et/src/naive_vector.hpp: the naive operators make the vector of the expression's elements.
use cosec_examples.Prelude.{
  ℕ, ◌≤◌, ◌<◌, ◌≡◌, refl, ◌∙◌, ap, subst, Bool, Option, none, some, length, get_elem?, arith,
}
use cosec_examples.Et.Memory.{
  Arithmetic, Address, Memory, Operand, lvalue, rvalue, address, Reading, lift_one, lift_two,
  of_one,
}
use cosec_examples.Et.Naive.{
  Expr, vector, sum, difference, times, scalar_times, quotient, Result, then_operand,
  add_or_subtract, binary, multiply_right, multiply_left, over, evaluate,
}
use cosec_examples.Et.NaiveSpec.{Made, Free, binary-Made, multiply_right-Made, multiply_left-Made}

Free-mono : (k l : ℕ) (v : Operand) → k ≤ l → Free l v → Free k v
Free-mono k l (lvalue a) h f = tt
Free-mono k l (rvalue a) h f = omega arith

module _ {A : Type 0} where
  -- x / s, as a product where the divisor has an inverse.
  unfoldable pub divided : Arithmetic A → A → A → A
  divided ar s x = elim ar.multiplicative_inverse [
    | none ↦ ar.divides x s
    | some inverse ↦ ar.multiplies x (inverse s)
  ]

  -- What an expression is, element by element.
  unfoldable pub value : Arithmetic A → Expr A → Reading A
  value ar (vector a) m i = get_elem? (m.elements a) i
  value ar (sum x y) m i = lift_two ar.plus (value ar x m i) (value ar y m i)
  value ar (difference x y) m i = lift_two ar.minus (value ar x m i) (value ar y m i)
  value ar (times x s) m i = lift_one (λ p. ar.multiplies p s) (value ar x m i)
  value ar (scalar_times s x) m i = lift_one (ar.multiplies s) (value ar x m i)
  value ar (quotient x s) m i = lift_one (divided ar s) (value ar x m i)

  -- The variables of the expression are vectors of `n` elements at addresses below `bound`.
  unfoldable pub Variables : ℕ → ℕ → Memory A → Expr A → Type 0
  Variables n bound m (vector a) = (a < bound) × (length (m.elements a) ≡ n)
  Variables n bound m (sum x y) = Variables n bound m x × Variables n bound m y
  Variables n bound m (difference x y) = Variables n bound m x × Variables n bound m y
  Variables n bound m (times x s) = Variables n bound m x
  Variables n bound m (scalar_times s x) = Variables n bound m x
  Variables n bound m (quotient x s) = Variables n bound m x

  -- A run has made the vector of `n` elements that the reading gives.
  pub record Evaluated (reading : Reading A) (n bound : ℕ) (m : Memory A) (r : Result A)
      : Type 0 where
    pub after : Memory A
    pub at : Operand
    pub run : r ≡ some (after, at)
    pub free : Free bound at
    pub below : address at < after.next
    pub later : m.next ≤ after.next
    pub kept : (c : Address) → c < bound → after.elements c ≡ m.elements c
    pub size : length (after.elements (address at)) ≡ n
    pub made : (j : ℕ) → j < n → get_elem? (after.elements (address at)) j ≡ reading m j

  Variables-kept :
      (n bound bound' : ℕ) (m m' : Memory A) (e : Expr A)
      → ((c : Address) → c < bound → m'.elements c ≡ m.elements c)
      → bound ≤ bound'
      → Variables n bound m e
      → Variables n bound' m' e
  unfolding Variables
  Variables-kept n bound bound' m m' (vector a) kept le v =
      (omega (arith, v.0), ap length (kept a v.0) ∙ v.1)
  Variables-kept n bound bound' m m' (sum x y) kept le v = (
    Variables-kept n bound bound' m m' x kept le v.0,
    Variables-kept n bound bound' m m' y kept le v.1,
  )
  Variables-kept n bound bound' m m' (difference x y) kept le v = (
    Variables-kept n bound bound' m m' x kept le v.0,
    Variables-kept n bound bound' m m' y kept le v.1,
  )
  Variables-kept n bound bound' m m' (times x s) kept le v =
      Variables-kept n bound bound' m m' x kept le v
  Variables-kept n bound bound' m m' (scalar_times s x) kept le v =
      Variables-kept n bound bound' m m' x kept le v
  Variables-kept n bound bound' m m' (quotient x s) kept le v =
      Variables-kept n bound bound' m m' x kept le v

  pub value_kept :
      (ar : Arithmetic A) (n bound : ℕ) (m m' : Memory A) (e : Expr A) (j : ℕ)
      → ((c : Address) → c < bound → m'.elements c ≡ m.elements c)
      → Variables n bound m e
      → value ar e m' j ≡ value ar e m j
  unfolding Variables value
  value_kept ar n bound m m' (vector a) j kept v = ap (λ xs. get_elem? xs j) (kept a v.0)
  value_kept ar n bound m m' (sum x y) j kept v =
      rw (value_kept ar n bound m m' x j kept v.0, value_kept ar n bound m m' y j kept v.1) refl
  value_kept ar n bound m m' (difference x y) j kept v =
      rw (value_kept ar n bound m m' x j kept v.0, value_kept ar n bound m m' y j kept v.1) refl
  value_kept ar n bound m m' (times x s) j kept v = rw (value_kept ar n bound m m' x j kept v) refl
  value_kept ar n bound m m' (scalar_times s x) j kept v =
      rw (value_kept ar n bound m m' x j kept v) refl
  value_kept ar n bound m m' (quotient x s) j kept v =
      rw (value_kept ar n bound m m' x j kept v) refl

  -- An operator on a result, and on two.
  step_one :
      (reading : Reading A) (f : A → A) (n bound : ℕ) (m : Memory A) (r : Result A)
      (op : Operand → Memory A → Result A)
      → ((v : Operand) (k : Memory A)
          → length (k.elements (address v)) ≡ n
          → address v < k.next
          → Free bound v
          → bound ≤ k.next
          → Made (of_one f (address v)) n bound k (op v k))
      → bound ≤ m.next
      → Evaluated reading n bound m r
      → Evaluated (λ k j. lift_one f (reading k j)) n bound m (then_operand r op)
  step_one reading f n bound m r op makes low x =
      let y = makes x.at x.after x.size x.below x.free (omega (arith, x.later)) in
      record {
        after = y.after;
        at = rvalue y.at;
        run = ap (λ o. then_operand o op) x.run ∙ y.run;
        free = y.fresh;
        below = y.below;
        later = omega (arith, x.later, y.later);
        kept = λ c h. y.kept c h ∙ x.kept c h;
        size = y.size;
        made = λ j h. y.made j h ∙ ap (lift_one f) (x.made j h);
      }

  add_or_subtract-binary :
      (ar : Arithmetic A) (im : Bool) (op : A → A → A) (v w : Operand) (n : ℕ) (m : Memory A)
      → length (m.elements (address v)) ≡ n
      → length (m.elements (address w)) ≡ n
      → add_or_subtract ar im op v w m ≡ binary ar im op v w n m
  unfolding add_or_subtract
  add_or_subtract-binary ar im op v w n m p q = rw (p, q) (ground arith)

  over-multiply_right :
      (ar : Arithmetic A) (im : Bool) (inverse : A → A) (v : Operand) (s : A) (m : Memory A)
      → ar.multiplicative_inverse ≡ some inverse
      → multiply_right ar im v (inverse s) m ≡ over ar im v s m
  unfolding over
  over-multiply_right ar im inverse v s m e = ground arith

  step_two :
      (ar : Arithmetic A) (im : Bool) (op : A → A → A) (x y : Expr A) (n bound : ℕ) (m : Memory A)
      → Variables n bound m y
      → bound ≤ m.next
      → Evaluated (value ar x) n bound m (evaluate ar im x m)
      → ((m' : Memory A)
          → Variables n m'.next m' y
          → Evaluated (value ar y) n m'.next m' (evaluate ar im y m'))
      → Evaluated
          (λ k j. lift_two op (value ar x k j) (value ar y k j))
          n
          bound
          m
          (then_operand
            (evaluate ar im x m)
            (λ v m1. then_operand (evaluate ar im y m1) (λ w. add_or_subtract ar im op v w)))
  step_two ar im op x y n bound m vars low a run_y =
      let b =
        run_y a.after
          (Variables-kept n bound a.after.next m a.after y a.kept (omega (arith, a.later)) vars) in
      let same : b.after.elements (address a.at) ≡ a.after.elements (address a.at) =
        b.kept (address a.at) a.below in
      let long : length (b.after.elements (address a.at)) ≡ n = ap length same ∙ a.size in
      let c =
        binary-Made ar im op a.at b.at n bound b.after long b.size (omega (arith, a.below, b.later))
          b.below a.free (Free-mono bound a.after.next b.at (omega (arith, a.later)) b.free)
          (omega (arith, a.later, b.later)) in
      record {
        after = c.after;
        at = rvalue c.at;
        run =
            ap
              (λ o.
                then_operand o
                  (λ v m1. then_operand (evaluate ar im y m1) (λ w. add_or_subtract ar im op v w)))
              a.run
            ∙ ap (λ o. then_operand o (add_or_subtract ar im op a.at)) b.run
            ∙ add_or_subtract-binary ar im op a.at b.at n b.after long b.size
            ∙ c.run;
        free = c.fresh;
        below = c.below;
        later = omega (arith, a.later, b.later, c.later);
        kept = λ d h. c.kept d h ∙ b.kept d (omega (arith, a.later)) ∙ a.kept d h;
        size = c.size;
        made = λ j h.
            c.made j h
            ∙ ap (λ o. lift_two op o (get_elem? (b.after.elements (address b.at)) j))
                (ap (λ xs. get_elem? xs j) same ∙ a.made j h)
            ∙ ap (lift_two op (value ar x m j))
                (b.made j h ∙ value_kept ar n bound m a.after y j a.kept vars);
      }

  lift_one-divided :
      (ar : Arithmetic A) (s : A) {inverse : A → A} (o : Option A)
      → ar.multiplicative_inverse ≡ some inverse
      → lift_one (λ p. ar.multiplies p (inverse s)) o ≡ lift_one (divided ar s) o
  unfolding divided
  lift_one-divided ar s none e = refl
  lift_one-divided ar s (some x) e = ground arith

  -- Where the element type has an inverse, the naive operators make of variables of one size the vector
  -- whose elements are the expression's, and leave every variable as it was, whichever results of
  -- operators they write over and whether or not the compiler moves an rvalue reference on return.
  pub evaluate-value :
      (ar : Arithmetic A) (im : Bool) (inverse : A → A) (e : Expr A) (n bound : ℕ) (m : Memory A)
      → ar.multiplicative_inverse ≡ some inverse
      → Variables n bound m e
      → bound ≤ m.next
      → Evaluated (value ar e) n bound m (evaluate ar im e m)
  unfolding evaluate Variables value
  evaluate-value ar im inverse (vector a) n bound m has v low = record {
    after = m;
    at = lvalue a;
    run = refl;
    free = tt;
    below = omega (arith, v.0);
    later = omega arith;
    kept = λ c h. refl;
    size = v.1;
    made = λ j h. refl;
  }
  evaluate-value ar im inverse (sum x y) n bound m has v low =
      step_two ar im ar.plus x y n bound m v.1 low
        (evaluate-value ar im inverse x n bound m has v.0 low)
        (λ m' v'. evaluate-value ar im inverse y n m'.next m' has v' (omega arith))
  evaluate-value ar im inverse (difference x y) n bound m has v low =
      step_two ar im ar.minus x y n bound m v.1 low
        (evaluate-value ar im inverse x n bound m has v.0 low)
        (λ m' v'. evaluate-value ar im inverse y n m'.next m' has v' (omega arith))
  evaluate-value ar im inverse (times x s) n bound m has v low =
      step_one (value ar x) (λ p. ar.multiplies p s) n bound m (evaluate ar im x m)
        (λ w. multiply_right ar im w s) (λ w k. multiply_right-Made ar im w s n bound k) low
        (evaluate-value ar im inverse x n bound m has v low)
  evaluate-value ar im inverse (scalar_times s x) n bound m has v low =
      step_one (value ar x) (ar.multiplies s) n bound m (evaluate ar im x m) (multiply_left ar s)
        (λ w k long p free. multiply_left-Made ar s w n bound k long p) low
        (evaluate-value ar im inverse x n bound m has v low)
  evaluate-value ar im inverse (quotient x s) n bound m has v low =
      let r =
        step_one (value ar x) (λ p. ar.multiplies p (inverse s)) n bound m (evaluate ar im x m)
          (λ w. over ar im w s)
          (λ w k long p free le.
            subst (λ o. Made (of_one (λ p. ar.multiplies p (inverse s)) (address w)) n bound k o)
              (over-multiply_right ar im inverse w s k has)
              (multiply_right-Made ar im w (inverse s) n bound k long p free le))
          low (evaluate-value ar im inverse x n bound m has v low) in
      record {
        after = r.after;
        at = r.at;
        run = r.run;
        free = r.free;
        below = r.below;
        later = r.later;
        kept = r.kept;
        size = r.size;
        made = λ j h. r.made j h ∙ lift_one-divided ar s (value ar x m j) has;
      }
