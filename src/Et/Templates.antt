-- ===== src/Et/Templates.antt =====
-- et/src/et_vector.hpp: the nodes of an expression and its conversion to a vector.
use cosec_examples.Prelude.{
  ℕ, Bool, true, false, ◌&&◌, ◌||◌, none, some, ◌==◌, if◌then◌else◌, length, get_elem?, max,
}
use cosec_examples.Et.Memory.{
  Arithmetic, Memory, Operand, Reading, lvalue, rvalue, construct, address, lift_two,
}
use cosec_examples.Et.Naive.{
  Expr, vector, sum, difference, times, scalar_times, quotient, Result, into_new,
}

-- A vector by reference, scalar_wrapper, and vector_et_node, which holds another node by an rvalue
-- reference.
pub data Node (A : Type 0) : Type 0 where
  operand : Operand → Node A
  scalar : A → Node A
  node : (A → A → A) → Node A → Node A → Node A

pub data Stolen : Type 0 where
  nullptr two_types : Stolen

-- What becomes of a conversion.
pub data Converted (A : Type 0) : Type 0 where
  made : Memory A → Operand → Converted A
  assertion_fails does_not_compile reads_past_the_end : Converted A

module _ {A : Type 0} where
  unfoldable pub size : Memory A → Node A → ℕ
  size m (operand v) = length (m.elements (address v))
  size m (scalar s) = 1
  size m (node op x y) = max (size m x) (size m y)

  -- The assertions of the constructors.
  unfoldable pub constructed : Memory A → Node A → Bool
  constructed m (operand v) = true
  constructed m (scalar s) = true
  constructed m (node op x y) =
      constructed m x
      && (constructed m y && (size m x == size m y || (size m x == 1 || size m y == 1)))

  -- operator[]
  unfoldable pub element : Node A → Reading A
  element (operand v) m i = get_elem? (m.elements (address v)) i
  element (scalar s) m i = some s
  element (node op x y) m i = lift_two op (element x m i) (element y m i)

  -- The operators.
  unfoldable pub node_of : Arithmetic A → Expr A → Node A
  node_of ar (vector a) = operand (lvalue a)
  node_of ar (sum x y) = node ar.plus (node_of ar x) (node_of ar y)
  node_of ar (difference x y) = node ar.minus (node_of ar x) (node_of ar y)
  node_of ar (times x s) = node ar.multiplies (node_of ar x) (scalar s)
  node_of ar (scalar_times s x) = node ar.multiplies (scalar s) (node_of ar x)
  node_of ar (quotient x s) = elim ar.multiplicative_inverse [
    | none ↦ node ar.divides (node_of ar x) (scalar s)
    | some inverse ↦ node ar.multiplies (node_of ar x) (scalar (inverse s))
  ]

  unfoldable pub is_rvalue_vector : Node A → Bool
  is_rvalue_vector (operand (rvalue a)) = true
  is_rvalue_vector (operand (lvalue a)) = false
  is_rvalue_vector (scalar s) = false
  is_rvalue_vector (node op x y) = false

  -- The type that steal() returns by: nullptr_t, or no one type, since the return of an operand stands
  -- beside the last one. What a node holds by reference is no vector_et_node for its tests.
  unfoldable pub steal : Node A → Node A → Stolen
  steal x y = if is_rvalue_vector x || is_rvalue_vector y then two_types else nullptr

  -- The result of std::generate, which reads the elements in turn.
  unfoldable pub generated : Result A → Converted A
  generated none = reads_past_the_end
  generated (some (m, v)) = made m v

  -- std::generate into a new vector.
  unfoldable pub generate : Arithmetic A → Node A → Memory A → Converted A
  generate ar e m =
      if constructed m e then generated (into_new ar (element e) (size m e) m) else assertion_fails

  -- The conversion of a node to a vector, and the copy of a vector.
  unfoldable pub convert : Arithmetic A → Node A → Memory A → Converted A
  convert ar (operand v) m = made (construct (m.elements (address v)) m) (rvalue m.next)
  convert ar (scalar s) m = does_not_compile
  convert ar (node op x y) m = elim (steal x y) [
    | two_types ↦ does_not_compile
    | nullptr ↦ generate ar (node op x y) m
  ]
