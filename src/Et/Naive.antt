-- ===== src/Et/Naive.antt =====
-- et/src/naive_vector.hpp: an overload of each operator for each kind of operand. The element types of
-- the operands and of the result are one type. `none` stands for an assertion that fails, a read
-- past the end, or an overload that does not compile.
use cosec_examples.Prelude.{ℕ, Bool, Option, none, some, ◌==◌, if◌then◌else◌, length}
use cosec_examples.Et.Memory.{
  Arithmetic, Address, Memory, Operand, lvalue, rvalue, address, construct, allocate, move_out,
  Reading, of_one, of_two, transform,
}

-- An expression of vectors.
pub data Expr (A : Type 0) : Type 0 where
  vector : Address → Expr A
  sum difference : Expr A → Expr A → Expr A
  times : Expr A → A → Expr A
  scalar_times : A → Expr A → Expr A
  quotient : Expr A → A → Expr A

-- A result is a new vector, an rvalue for the operator around it.
abbrev pub Result : Type 0 → Type 0
Result A = Option (Memory A × Operand)

module _ {A : Type 0} where
  abbrev pub and_then : {B : Type 0} → Option (Memory A) → (Memory A → Option B) → Option B
  and_then none f = none
  and_then (some m) f = f m

  abbrev pub newest : Memory A → Memory A → Result A
  newest m m' = some (m', rvalue m.next)

  -- Into a new vector.
  unfoldable pub into_new : Arithmetic A → Reading A → ℕ → Memory A → Result A
  into_new ar reading n m = and_then (transform reading m.next n 0 (allocate ar n m)) (newest m)

  -- Into the operand, which is then moved into the result, or copied where the compiler does not take
  -- `return v` of an rvalue reference for a move.
  unfoldable pub into_moved : Reading A → Address → ℕ → Memory A → Result A
  into_moved reading a n m = and_then (transform reading a n 0 m) (λ m'. newest m' (move_out a m'))

  unfoldable pub into_named : Bool → Reading A → Address → ℕ → Memory A → Result A
  into_named implicit_move reading a n m =
      and_then (transform reading a n 0 m)
        (λ m'. newest m' (if implicit_move then move_out a m' else construct (m'.elements a) m'))

  -- operator+ and operator-
  unfoldable pub binary :
      Arithmetic A → Bool → (A → A → A) → Operand → Operand → ℕ → Memory A → Result A
  binary ar implicit_move op (lvalue a) (lvalue b) n m = into_new ar (of_two op a b) n m
  binary ar implicit_move op (rvalue a) (lvalue b) n m = into_moved (of_two op a b) a n m
  binary ar implicit_move op (lvalue a) (rvalue b) n m =
      into_named implicit_move (of_two op a b) b n m
  binary ar implicit_move op (rvalue a) (rvalue b) n m = into_moved (of_two op a b) a n m

  -- assert(v1.size()==v2.size())
  unfoldable pub add_or_subtract :
      Arithmetic A → Bool → (A → A → A) → Operand → Operand → Memory A → Result A
  add_or_subtract ar implicit_move op v1 v2 m =
      let n = length (m.elements (address v1)) in
      if n == length (m.elements (address v2)) then binary ar implicit_move op v1 v2 n m else none

  abbrev pub add : Arithmetic A → Bool → Operand → Operand → Memory A → Result A
  add ar implicit_move v1 v2 m = add_or_subtract ar implicit_move ar.plus v1 v2 m

  abbrev pub subtract : Arithmetic A → Bool → Operand → Operand → Memory A → Result A
  subtract ar implicit_move v1 v2 m = add_or_subtract ar implicit_move ar.minus v1 v2 m

  -- operator* with the scalar on the right
  unfoldable pub multiply_right : Arithmetic A → Bool → Operand → A → Memory A → Result A
  multiply_right ar implicit_move (lvalue a) s m =
      into_new ar (of_one (λ x. ar.multiplies x s) a) (length (m.elements a)) m
  multiply_right ar implicit_move (rvalue a) s m =
      into_named implicit_move (of_one (λ x. ar.multiplies x s) a) a (length (m.elements a)) m

  -- operator* with the scalar on the left: into a new vector for both kinds
  unfoldable pub multiply_left : Arithmetic A → A → Operand → Memory A → Result A
  multiply_left ar s v m =
      into_new ar (of_one (λ x. ar.multiplies s x) (address v)) (length (m.elements (address v))) m

  -- operator/ where there is no inverse. For an lvalue it writes through a const_iterator, which does
  -- not compile.
  unfoldable pub divide : Arithmetic A → Bool → Operand → A → Memory A → Result A
  divide ar implicit_move (lvalue a) s m = none
  divide ar implicit_move (rvalue a) s m =
      into_named implicit_move (of_one (λ x. ar.divides x s) a) a (length (m.elements a)) m

  unfoldable pub over : Arithmetic A → Bool → Operand → A → Memory A → Result A
  over ar implicit_move v s m = elim ar.multiplicative_inverse [
    | none ↦ divide ar implicit_move v s m
    | some inverse ↦ multiply_right ar implicit_move v (inverse s) m
  ]

  abbrev pub then_operand : Result A → (Operand → Memory A → Result A) → Result A
  then_operand none f = none
  then_operand (some (m, v)) f = f v m

  -- An expression, the left operands first: variables are lvalues and results rvalues.
  unfoldable pub evaluate : Arithmetic A → Bool → Expr A → Memory A → Result A
  evaluate ar im (vector a) m = some (m, lvalue a)
  evaluate ar im (sum x y) m =
      then_operand (evaluate ar im x m)
        (λ v m1. then_operand (evaluate ar im y m1) (λ w. add ar im v w))
  evaluate ar im (difference x y) m =
      then_operand (evaluate ar im x m)
        (λ v m1. then_operand (evaluate ar im y m1) (λ w. subtract ar im v w))
  evaluate ar im (times x s) m = then_operand (evaluate ar im x m) (λ v. multiply_right ar im v s)
  evaluate ar im (scalar_times s x) m = then_operand (evaluate ar im x m) (multiply_left ar s)
  evaluate ar im (quotient x s) m = then_operand (evaluate ar im x m) (λ v. over ar im v s)
