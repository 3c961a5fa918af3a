-- ===== src/Et/Memory.antt =====
-- et/src/common.hpp, and what the operators use of boost::container::vector and std::transform: the
-- vectors by their addresses, so that operands and results may be the same.
use cosec_examples.Prelude.{
  ℕ, zero, suc, Option, none, some, List, [], ◌==◌, if◌then◌else◌, get_elem?, set, replicate,
}

-- The operators of the element type, `multiplicative_inverse` if it has one, and what memory holds that
-- is not initialised. Moving an element is copying it, as it is for numbers.
pub record Arithmetic (A : Type 0) : Type 0 where
  pub plus : A → A → A
  pub minus : A → A → A
  pub multiplies : A → A → A
  pub divides : A → A → A
  pub multiplicative_inverse : Option (A → A)
  pub uninitialised : A

abbrev pub Address : Type 0
Address = ℕ

-- The elements of each vector, and the address of the next one.
pub record Memory (A : Type 0) : Type 0 where
  pub elements : Address → List A
  pub next : Address

-- An argument, as an lvalue or as an rvalue that may be moved from.
pub data Operand : Type 0 where
  lvalue rvalue : Address → Operand

abbrev pub address : Operand → Address
address (lvalue a) = a
address (rvalue a) = a

-- The element that each round of an algorithm gives.
abbrev pub Reading : Type 0 → Type 0
Reading A = Memory A → ℕ → Option A

module _ {A : Type 0} where
  unfoldable pub assign : Address → List A → Memory A → Memory A
  assign a xs m = record m { elements = λ b. if b == a then xs else m.elements b }

  -- A new vector with the elements.
  unfoldable pub construct : List A → Memory A → Memory A
  construct xs m = record {
    elements = λ b. if b == m.next then xs else m.elements b;
    next = suc m.next;
  }

  -- ret(n,boost::container::default_init)
  unfoldable pub allocate : Arithmetic A → ℕ → Memory A → Memory A
  allocate ar n m = construct (replicate n ar.uninitialised) m

  -- return std::move(v)
  unfoldable pub move_out : Address → Memory A → Memory A
  move_out a m = construct (m.elements a) (assign a [] m)

  abbrev pub lift_one : (A → A) → Option A → Option A
  lift_one f none = none
  lift_one f (some x) = some (f x)

  abbrev pub lift_two : (A → A → A) → Option A → Option A → Option A
  lift_two op none q = none
  lift_two op (some x) none = none
  lift_two op (some x) (some y) = some (op x y)

  abbrev pub of_one : (A → A) → Address → Reading A
  of_one f a m i = lift_one f (get_elem? (m.elements a) i)

  abbrev pub of_two : (A → A → A) → Address → Address → Reading A
  of_two op a b m i = lift_two op (get_elem? (m.elements a) i) (get_elem? (m.elements b) i)

  -- std::transform: `*out++ = op(*first++)` for the rounds that are left. `none`: a round reads past
  -- the end.
  unfoldable pub transform : Reading A → Address → ℕ → ℕ → Memory A → Option (Memory A)
  transform reading out zero i m = some m
  transform reading out (suc n) i m = elim (reading m i) [
    | none ↦ none
    | some x ↦ transform reading out n (suc i) (assign out (set (m.elements out) i x) m)
  ]
