-- ===== src/Et/TemplatesSpec.antt =====
-- et/src/et_vector.hpp: what the conversion of a node makes.
use cosec_examples.Prelude.{
  ℕ, ◌≤◌, ◌≡◌, ◌≢◌, refl, sym, ◌∙◌, ap, fun_ext, true, false, Option, none, some, length, get_elem?,
  arith,
}
use cosec_examples.Et.Memory.{
  Arithmetic, Address, Memory, Operand, address, construct, lift_one, lift_two,
}
use cosec_examples.Et.Naive.{
  Expr, vector, sum, difference, times, scalar_times, quotient, Result, into_new,
}
use cosec_examples.Et.Templates.{
  Node, operand, scalar, node, size, constructed, element, node_of, is_rvalue_vector, steal,
  generate, convert, Converted, made, assertion_fails, does_not_compile, reads_past_the_end,
  generated,
}
use cosec_examples.Et.Loop.{Ahead, get_elem?-some}
use cosec_examples.Et.NaiveSpec.{
  Made, Gives, get_elem?-assign, construct_ne, construct_self, construct-next, into_new-Made,
}
use cosec_examples.Et.NaiveValue.{divided, value, value_kept, Variables}

-- A conversion that makes a vector, seen as a result.
pub of_converted : {A : Type 0} → Converted A → Result A
of_converted (made m v) = some (m, v)
of_converted assertion_fails = none
of_converted does_not_compile = none
of_converted reads_past_the_end = none

of_converted-generated : {A : Type 0} (r : Result A) → of_converted (generated r) ≡ r
unfolding of_converted generated
of_converted-generated none = refl
of_converted-generated (some (m, v)) = refl

pub of_converted-made :
    {A : Type 0} {c : Converted A} {m : Memory A} {v : Operand}
    → of_converted c ≡ some (m, v)
    → c ≡ made m v
unfolding of_converted
of_converted-made {c = made m' v'} h = cc
of_converted-made {c = assertion_fails} h = absurd (cc)
of_converted-made {c = does_not_compile} h = absurd (cc)
of_converted-made {c = reads_past_the_end} h = absurd (cc)

module _ {A : Type 0} where
  element-Ahead : (e : Node A) (out : Address) → Ahead (element e) out
  unfolding element
  element-Ahead (operand v) out m i j x h = get_elem?-assign m out (address v) i j x h
  element-Ahead (scalar s) out m i j x h = refl
  element-Ahead (node op a b) out m i j x h =
      rw (element-Ahead a out m i j x h, element-Ahead b out m i j x h) refl

  lift_two-scalar :
      (op : A → A → A) (s : A) (o : Option A) → lift_two op o (some s) ≡ lift_one (λ x. op x s) o
  lift_two-scalar op s none = refl
  lift_two-scalar op s (some x) = refl

  scalar-lift_two :
      (op : A → A → A) (s : A) (o : Option A) → lift_two op (some s) o ≡ lift_one (op s) o
  scalar-lift_two op s none = refl
  scalar-lift_two op s (some x) = refl

  module _ (ar : Arithmetic A) (inverse : A → A)
      (has : ar.multiplicative_inverse ≡ some inverse) where
    pub node_of-quotient :
        (x : Expr A) (s : A)
        → node_of ar (quotient x s) ≡ node ar.multiplies (node_of ar x) (scalar (inverse s))
    unfolding node_of
    node_of-quotient x s = ground arith

    divided-inverse : (s x : A) → ar.multiplies x (inverse s) ≡ divided ar s x
    unfolding divided
    divided-inverse s x = ground arith

    -- Each element of a node is the element of the expression.
    pub element-value :
        (e : Expr A) (m : Memory A) (j : ℕ) → element (node_of ar e) m j ≡ value ar e m j
    unfolding element node_of value
    element-value (vector a) m j = refl
    element-value (sum x y) m j = rw (element-value x m j, element-value y m j) refl
    element-value (difference x y) m j = rw (element-value x m j, element-value y m j) refl
    element-value (times x s) m j =
        lift_two-scalar ar.multiplies s (element (node_of ar x) m j)
        ∙ ap (lift_one (λ p. ar.multiplies p s)) (element-value x m j)
    element-value (scalar_times s x) m j =
        scalar-lift_two ar.multiplies s (element (node_of ar x) m j)
        ∙ ap (lift_one (ar.multiplies s)) (element-value x m j)
    element-value (quotient x s) m j =
        ap (λ e. element e m j) (node_of-quotient x s)
        ∙ lift_two-scalar ar.multiplies (inverse s) (element (node_of ar x) m j)
        ∙ ap (lift_one (λ p. ar.multiplies p (inverse s))) (element-value x m j)
        ∙ ap (λ f. lift_one f (value ar x m j)) (fun_ext (divided-inverse s))

    -- No node is an rvalue of a vector.
    lvalues_only : (e : Expr A) → is_rvalue_vector (node_of ar e) ≡ false
    unfolding is_rvalue_vector node_of
    lvalues_only (vector a) = refl
    lvalues_only (sum x y) = refl
    lvalues_only (difference x y) = refl
    lvalues_only (times x s) = refl
    lvalues_only (scalar_times s x) = refl
    lvalues_only (quotient x s) = ap is_rvalue_vector (node_of-quotient x s)

    module _ (n bound : ℕ) (m : Memory A) (some_elements : 1 ≤ n) where
      size-node_of : (e : Expr A) → Variables n bound m e → size m (node_of ar e) ≡ n
      unfolding size node_of Variables
      size-node_of (vector a) v = v.1
      size-node_of (sum x y) v = omega (arith, size-node_of x v.0, size-node_of y v.1)
      size-node_of (difference x y) v = omega (arith, size-node_of x v.0, size-node_of y v.1)
      size-node_of (times x s) v = omega (arith, size-node_of x v)
      size-node_of (scalar_times s x) v = omega (arith, size-node_of x v)
      size-node_of (quotient x s) v =
          ap (size m) (node_of-quotient x s) ∙ omega (arith, size-node_of x v)

      constructed-node_of :
          (e : Expr A) → Variables n bound m e → constructed m (node_of ar e) ≡ true
      unfolding constructed node_of Variables size
      constructed-node_of (vector a) v = refl
      constructed-node_of (sum x y) v = ground (
        arith,
        constructed-node_of x v.0,
        constructed-node_of y v.1,
        size-node_of x v.0,
        size-node_of y v.1,
      )
      constructed-node_of (difference x y) v = ground (
        arith,
        constructed-node_of x v.0,
        constructed-node_of y v.1,
        size-node_of x v.0,
        size-node_of y v.1,
      )
      constructed-node_of (times x s) v = ground (arith, constructed-node_of x v)
      constructed-node_of (scalar_times s x) v = ground (arith, constructed-node_of x v)
      constructed-node_of (quotient x s) v =
          ap (constructed m) (node_of-quotient x s) ∙ ground (arith, constructed-node_of x v)

      value-Gives : (e : Expr A) → Variables n bound m e → Gives (value ar e) n m
      unfolding value Variables
      value-Gives (vector a) v j h = get_elem?-some (m.elements a) j (omega (arith, v.1))
      value-Gives (sum x y) v j h =
          let (p, e) = value-Gives x v.0 j h in
          let (q, e') = value-Gives y v.1 j h in (ar.plus p q, rw (e, e') refl)
      value-Gives (difference x y) v j h =
          let (p, e) = value-Gives x v.0 j h in
          let (q, e') = value-Gives y v.1 j h in (ar.minus p q, rw (e, e') refl)
      value-Gives (times x s) v j h =
          let (p, e) = value-Gives x v j h in (ar.multiplies p s, rw e refl)
      value-Gives (scalar_times s x) v j h =
          let (p, e) = value-Gives x v j h in (ar.multiplies s p, rw e refl)
      value-Gives (quotient x s) v j h =
          let (p, e) = value-Gives x v j h in (divided ar s p, rw e refl)

      -- The conversion makes the vector of the expression's elements, in a new vector.
      generate-value :
          (e : Expr A)
          → Variables n bound m e
          → bound ≤ m.next
          → Made (value ar e) n bound m (of_converted (generate ar (node_of ar e) m))
      unfolding generate
      generate-value e v low =
          let same : (k : Memory A) (j : ℕ) → element (node_of ar e) k j ≡ value ar e k j =
            λ k j. element-value e k j in
          let r =
            into_new-Made ar (element (node_of ar e)) n bound m
              (element-Ahead (node_of ar e) m.next)
              (λ xs j.
                same (construct xs m) j
                ∙ value_kept ar n bound m (construct xs m) e j
                    (λ c h. construct_ne c xs m (omega arith)) v
                ∙ sym (same m j))
              (λ j h. let (p, q) = value-Gives e v j h in (p, same m j ∙ q)) low in
          rw (constructed-node_of e v, size-node_of e v)
            (record {
              after = r.after;
              at = r.at;
              run = of_converted-generated (into_new ar (element (node_of ar e)) n m) ∙ r.run;
              fresh = r.fresh;
              below = r.below;
              later = r.later;
              kept = r.kept;
              size = r.size;
              made = λ j h. r.made j h ∙ same m j;
            })

      pub convert-generate :
          (e : Expr A)
          → ((a : Address) → e ≢ vector a)
          → convert ar (node_of ar e) m ≡ generate ar (node_of ar e) m
      unfolding convert steal is_rvalue_vector node_of
      convert-generate (vector a) h = absurd (h a refl)
      convert-generate (sum x y) h = ground (arith, lvalues_only x, lvalues_only y)
      convert-generate (difference x y) h = ground (arith, lvalues_only x, lvalues_only y)
      convert-generate (times x s) h = ground (arith, lvalues_only x)
      convert-generate (scalar_times s x) h = ground (arith, lvalues_only x)
      convert-generate (quotient x s) h = rw (node_of-quotient x s) (ground (arith, lvalues_only x))

      copy-value :
          (a : Address)
          → Variables n bound m (vector a)
          → bound ≤ m.next
          → Made
              (value ar (vector a))
              n
              bound
              m
              (of_converted (convert ar (node_of ar (vector a)) m))
      unfolding convert node_of value Variables of_converted
      copy-value a v low = record {
        after = construct (m.elements a) m;
        at = m.next;
        run = refl;
        fresh = low;
        below = omega (arith, construct-next (m.elements a) m);
        later = omega (arith, construct-next (m.elements a) m);
        kept = λ c h. construct_ne c (m.elements a) m (omega arith);
        size = ap length (construct_self (m.elements a) m) ∙ v.1;
        made = λ j h. ap (λ xs. get_elem? xs j) (construct_self (m.elements a) m);
      }

      of_node :
          (e : Expr A)
          → ((a : Address) → e ≢ vector a)
          → Variables n bound m e
          → bound ≤ m.next
          → Made (value ar e) n bound m (of_converted (convert ar (node_of ar e) m))
      of_node e h v low = rw (convert-generate e h) (generate-value e v low)

      -- Where the element type has an inverse, the conversion of the node of an expression of variables of
      -- one size, one element or more, makes a new vector whose elements are the expression's.
      pub convert-value :
          (e : Expr A)
          → Variables n bound m e
          → bound ≤ m.next
          → Made (value ar e) n bound m (of_converted (convert ar (node_of ar e) m))
      convert-value (vector a) v low = copy-value a v low
      convert-value (sum x y) v low = of_node (sum x y) (λ a q. absurd (cc)) v low
      convert-value (difference x y) v low = of_node (difference x y) (λ a q. absurd (cc)) v low
      convert-value (times x s) v low = of_node (times x s) (λ a q. absurd (cc)) v low
      convert-value (scalar_times s x) v low = of_node (scalar_times s x) (λ a q. absurd (cc)) v low
      convert-value (quotient x s) v low = of_node (quotient x s) (λ a q. absurd (cc)) v low
