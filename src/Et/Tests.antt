-- ===== src/Et/Tests.antt =====
-- et/src/main.cpp: the expression of the benchmark, over the numbers modulo 7.
use cosec_examples.Prelude.{
  ℕ, ◌+◌, ◌-◌, ◌*◌, ◌%◌, ◌^◌, ◌<◌, ◌≡◌, refl, true, false, none, some, List, [], ◌∷◌, ◌==◌,
  if◌then◌else◌, arith,
}
use cosec_examples.Et.Memory.{
  Arithmetic, Address, Memory, Operand, address, assign, construct, allocate, move_out, transform,
}
use cosec_examples.Et.Naive.{
  Expr, vector, sum, difference, times, scalar_times, quotient, Result, evaluate, over,
  multiply_right, multiply_left, add_or_subtract, binary, into_new, into_moved, into_named,
}
use cosec_examples.Et.Templates.{made, reads_past_the_end, constructed, size, node_of, convert}
use cosec_examples.Et.NaiveValue.{Variables, Evaluated, value}
use cosec_examples.Et.Equivalence.{evaluate-eq-convert, empty-times}

abbrev modulo_7 : Arithmetic ℕ
modulo_7 = record {
  plus = λ a b. (a + b) % 7;
  minus = λ a b. (a + 7 - b) % 7;
  multiplies = λ a b. a * b % 7;
  divides = λ a b. a * b ^ 5 % 7;
  multiplicative_inverse = some (λ a. a ^ 5 % 7);
  uninitialised = 9;
}

-- u, v and w.
abbrev three : Memory ℕ
three = record {
  elements = λ c. if c == 0 then 1 ∷ 2 ∷ [] else if c == 1 then 3 ∷ 4 ∷ [] else 5 ∷ 6 ∷ [];
  next = 3;
}

-- a*u-v/b+w
abbrev benchmark : Expr ℕ
benchmark = sum (difference (scalar_times 2 (vector 0)) (quotient (vector 1) 3)) (vector 2)

abbrev result : Result ℕ → List ℕ
result none = []
result (some (m, v)) = m.elements (address v)

naive_run : result (evaluate modulo_7 false benchmark three) ≡ 6 ∷ 4 ∷ []
unfolding evaluate over multiply_right multiply_left add_or_subtract binary into_new into_moved
    into_named allocate move_out assign construct transform
naive_run = refl

evaluate-eq-convert_example :
    (m1 m2 : Memory ℕ) × (v1 v2 : Operand) × (evaluate modulo_7 false benchmark three
      ≡ some (m1, v1))
    × (convert modulo_7 (node_of modulo_7 benchmark) three ≡ made m2 v2)
    × (m1.elements (address v1) ≡ m2.elements (address v2))
    × ((c : Address) → c < 3 → m1.elements c ≡ three.elements c)
    × ((c : Address) → c < 3 → m2.elements c ≡ three.elements c)
unfolding Variables
evaluate-eq-convert_example =
    evaluate-eq-convert modulo_7 (λ a. a ^ 5 % 7) refl false benchmark 2 3 three (omega arith)
      (((omega arith, refl), (omega arith, refl)), (omega arith, refl)) (omega arith)

abbrev none_there : Memory ℕ
none_there = record { elements = λ c. []; next = 1 }

empty-times_example :
    Evaluated
      (value modulo_7 (times (vector 0) 2))
      0
      1
      none_there
      (evaluate modulo_7 true (times (vector 0) 2) none_there)
    × (constructed none_there (node_of modulo_7 (times (vector 0) 2)) ≡ true)
    × (size none_there (node_of modulo_7 (times (vector 0) 2)) ≡ 1)
    × (convert modulo_7 (node_of modulo_7 (times (vector 0) 2)) none_there ≡ reads_past_the_end)
unfolding Variables
empty-times_example =
    empty-times modulo_7 (λ a. a ^ 5 % 7) refl true (vector 0) 2 1 none_there (omega arith, refl)
      (omega arith)
