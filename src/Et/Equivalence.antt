-- ===== src/Et/Equivalence.antt =====
-- et/src: naive operators and expression templates against each other.
use cosec_examples.Prelude.{
  true, ℕ, zero, suc, ◌≤◌, ◌<◌, ◌≡◌, refl, sym, ◌∙◌, Bool, none, some, List, replicate, max, arith,
  dec_lt,
}
use cosec_examples.Et.Memory.{
  Arithmetic, Address, Memory, Operand, rvalue, address, construct, allocate, Reading, transform,
}
use cosec_examples.Et.Naive.{
  Expr, vector, sum, difference, times, scalar_times, quotient, into_new, evaluate,
}
use cosec_examples.Et.Templates.{
  made, reads_past_the_end, generated, constructed, size, element, node_of, generate, convert,
}
use cosec_examples.Et.Loop.{list_ext, get_elem?-none}
use cosec_examples.Et.NaiveSpec.{construct_ne}
use cosec_examples.Et.NaiveValue.{value, value_kept, Variables, Evaluated, evaluate-value}
use cosec_examples.Et.TemplatesSpec.{
  of_converted-made, node_of-quotient, element-value, convert-generate, convert-value,
}

module _ {A : Type 0} (ar : Arithmetic A) (inverse : A → A)
    (has : ar.multiplicative_inverse ≡ some inverse) where
  -- For an expression of variables of one size, one element or more, and elements with an inverse, the
  -- naive operators and the conversion of the expression template both make a vector, with the same
  -- elements, and leave every variable as it was.
  pub evaluate-eq-convert :
      (im : Bool) (e : Expr A) (n bound : ℕ) (m : Memory A)
      → 1 ≤ n
      → Variables n bound m e
      → bound ≤ m.next
      → (m1 m2 : Memory A) × (v1 v2 : Operand) × (evaluate ar im e m ≡ some (m1, v1))
        × (convert ar (node_of ar e) m ≡ made m2 v2)
        × (m1.elements (address v1) ≡ m2.elements (address v2))
        × ((c : Address) → c < bound → m1.elements c ≡ m.elements c)
        × ((c : Address) → c < bound → m2.elements c ≡ m.elements c)
  evaluate-eq-convert im e n bound m pos v low =
      let a = evaluate-value ar im inverse e n bound m has v low in
      let b = convert-value ar inverse has n bound m pos e v low in
      let same : a.after.elements (address a.at) ≡ b.after.elements b.at =
        list_ext (a.after.elements (address a.at)) (b.after.elements b.at) (λ i. elim (dec_lt i n) [
          | yes p ↦ a.made i p ∙ sym (b.made i p)
          | no q ↦
              get_elem?-none (a.after.elements (address a.at)) i (omega (arith, a.size))
              ∙ sym (get_elem?-none (b.after.elements b.at) i (omega (arith, b.size)))
        ]) in
      (a.after, b.after, a.at, rvalue b.at, a.run, of_converted-made b.run, same, a.kept, b.kept)

  value-none :
      (e : Expr A) (bound : ℕ) (m : Memory A) (j : ℕ)
      → Variables 0 bound m e
      → value ar e m j ≡ none
  unfolding value Variables
  value-none (vector a) bound m j v = get_elem?-none (m.elements a) j (omega (arith, v.1))
  value-none (sum x y) bound m j v = rw (value-none x bound m j v.0) refl
  value-none (difference x y) bound m j v = rw (value-none x bound m j v.0) refl
  value-none (times x s) bound m j v = rw (value-none x bound m j v) refl
  value-none (scalar_times s x) bound m j v = rw (value-none x bound m j v) refl
  value-none (quotient x s) bound m j v = rw (value-none x bound m j v) refl

  into_new-none :
      (reading : Reading A) (n : ℕ) (m : Memory A)
      → 1 ≤ n
      → ((xs : List A) → reading (construct xs m) 0 ≡ none)
      → into_new ar reading n m ≡ none
  unfolding into_new allocate transform
  into_new-none reading zero m pos h = absurd (omega arith)
  into_new-none reading (suc n) m pos h = ground (arith, h (replicate (suc n) ar.uninitialised))

  -- The nodes of empty vectors are of size 0 or 1, so that no assertion fails.
  size_of_empty :
      (e : Expr A) (bound : ℕ) (m : Memory A)
      → Variables 0 bound m e
      → (size m (node_of ar e) ≤ 1) × (constructed m (node_of ar e) ≡ true)
  unfolding size constructed node_of Variables
  size_of_empty (vector a) bound m v = (omega (arith, v.1), refl)
  size_of_empty (sum x y) bound m v =
      let (a, b) = size_of_empty x bound m v.0 in
      let (c, d) = size_of_empty y bound m v.1 in (omega (arith, a, c), ground (arith, a, b, c, d))
  size_of_empty (difference x y) bound m v =
      let (a, b) = size_of_empty x bound m v.0 in
      let (c, d) = size_of_empty y bound m v.1 in (omega (arith, a, c), ground (arith, a, b, c, d))
  size_of_empty (times x s) bound m v =
      let (a, b) = size_of_empty x bound m v in (omega (arith, a), ground (arith, a, b))
  size_of_empty (scalar_times s x) bound m v =
      let (a, b) = size_of_empty x bound m v in (omega (arith, a), ground (arith, a, b))
  size_of_empty (quotient x s) bound m v =
      let (a, b) = size_of_empty x bound m v in
      rw (node_of-quotient ar inverse has x s) (omega (arith, a), ground (arith, a, b))

  -- An empty vector times a scalar is an empty vector by the naive operators, but of the expression template no
  -- assertion fails, its size is 1, and its conversion reads past the end.
  pub empty-times :
      (im : Bool) (x : Expr A) (s : A) (bound : ℕ) (m : Memory A)
      → Variables 0 bound m x
      → bound ≤ m.next
      → Evaluated (value ar (times x s)) 0 bound m (evaluate ar im (times x s) m)
        × (constructed m (node_of ar (times x s)) ≡ true)
        × (size m (node_of ar (times x s)) ≡ 1)
        × (convert ar (node_of ar (times x s)) m ≡ reads_past_the_end)
  unfolding generate size node_of Variables generated
  empty-times im x s bound m v low =
      let reads : (xs : List A) → element (node_of ar (times x s)) (construct xs m) 0 ≡ none = λ xs.
        element-value ar inverse has (times x s) (construct xs m) 0
        ∙ value_kept ar 0 bound m (construct xs m) (times x s) 0
            (λ c h. construct_ne c xs m (omega arith)) v
        ∙ value-none (times x s) bound m 0 v in
      let empty : into_new ar (element (node_of ar (times x s))) (max (size m (node_of ar x)) 1) m
          ≡ none =
        into_new-none (element (node_of ar (times x s))) _ m (omega arith) reads in
      let (small, holds) = size_of_empty (times x s) bound m v in
      (
        evaluate-value ar im inverse (times x s) 0 bound m has v low,
        holds,
        omega (arith, small),
        convert-generate ar inverse has 1 bound m (omega arith) (times x s) (λ a q. absurd (cc))
            ∙ rw (holds, empty) refl,
      )
