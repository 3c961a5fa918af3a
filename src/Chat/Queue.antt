-- ===== src/Chat/Queue.antt =====
-- asio-shared/src/chat.cpp: what the operations do to `queue_`, read through iterators.
use cosec_examples.Prelude.{
  suc, ◌+◌, ◌≤◌, ◌<◌, ◌≡◌, ◌≢◌, refl, inl, inr, Option, none, some, List, [], ◌∷◌, ◌++◌, ltb, ◌==◌,
  if◌then◌else◌, length, arith, Bool-cases,
}
use cosec_examples.Chat.{
  Session, Node, Message, deref, decrement, decrement_at, erase, after, skip_own, size_mod,
}

-- Nodes rise along the queue, from `lo` on, and stay below `hi`.
abbrev pub Ascending : Node → Node → List Message → Type 0
Ascending lo hi [] = lo ≤ hi
Ascending lo hi (m ∷ q) = (lo ≤ m.node) × Ascending (suc m.node) hi q

abbrev pub decremented : Option Message → Option Message
decremented none = none
decremented (some m) = some (decrement m)

pub decrement_lem :
    (m : Message)
    → 0 < m.senders_remaining
    → m.senders_remaining < size_mod
    → (decrement m).senders_remaining + 1 ≡ m.senders_remaining
unfolding decrement
decrement_lem m h k = omega arith

pub deref-node : (n : Node) (q : List Message) (m : Message) → deref n q ≡ some m → m.node ≡ n
unfolding deref
deref-node n [] m h = cc
deref-node n (x ∷ q) m h = ground (arith, deref-node n q m)

pub deref_head : (m : Message) (q : List Message) → deref m.node (m ∷ q) ≡ some m
unfolding deref
deref_head m q = ground arith

pub Ascending-le : (lo hi : Node) (q : List Message) → Ascending lo hi q → lo ≤ hi
Ascending-le lo hi [] a = a
Ascending-le lo hi (m ∷ q) a = omega (arith, Ascending-le (suc m.node) hi q a.1)

pub Ascending-widen :
    (lo lo' hi : Node) (q : List Message) → lo' ≤ lo → Ascending lo hi q → Ascending lo' hi q
Ascending-widen lo lo' hi [] h a = omega arith
Ascending-widen lo lo' hi (m ∷ q) h a = (omega arith, a.1)

pub deref_below :
    (n lo hi : Node) (q : List Message) → Ascending lo hi q → n < lo → deref n q ≡ none
unfolding deref
deref_below n lo hi [] a h = refl
deref_below n lo hi (m ∷ q) a h = ground (arith, deref_below n (suc m.node) hi q a.1)

pub deref_range :
    (n lo hi : Node) (q : List Message) (m : Message)
    → Ascending lo hi q
    → deref n q ≡ some m
    → (lo ≤ n) × (n < hi)
unfolding deref
deref_range n lo hi [] m a h = cc
deref_range n lo hi (x ∷ q) m a h =
    ground (arith, deref_range n (suc x.node) hi q m a.1, Ascending-le (suc x.node) hi q a.1)

pub Ascending-append :
    (lo hi : Node) (q : List Message) (m : Message)
    → m.node ≡ hi
    → Ascending lo hi q
    → Ascending lo (suc hi) (q ++ m ∷ [])
Ascending-append lo hi [] m e a = omega arith
Ascending-append lo hi (x ∷ q) m e a = (a.0, Ascending-append (suc x.node) hi q m e a.1)

pub deref-append :
    (n lo hi : Node) (q : List Message) (m : Message)
    → m.node ≡ hi
    → Ascending lo hi q
    → deref n (q ++ m ∷ []) ≡ (if hi == n then some m else deref n q)
unfolding deref
deref-append n lo hi [] m e a = ground arith
deref-append n lo hi (x ∷ q) m e a =
    ground (arith, deref-append n (suc x.node) hi q m e a.1, Ascending-le (suc x.node) hi q a.1)

module _ (n : Node) where
  pub decrement_at-Ascending :
      (lo hi : Node) (q : List Message) → Ascending lo hi q → Ascending lo hi (decrement_at n q)
  unfolding decrement decrement_at
  decrement_at-Ascending lo hi [] a = a
  decrement_at-Ascending lo hi (m ∷ q) a =
      ground (arith, decrement_at-Ascending (suc m.node) hi q a.1)

  pub deref-decrement_at :
      (k : Node) (q : List Message)
      → deref k (decrement_at n q) ≡ (if n == k then decremented (deref k q) else deref k q)
  unfolding deref decrement decrement_at
  deref-decrement_at k [] = ground arith
  deref-decrement_at k (m ∷ q) = ground (arith, deref-decrement_at k q)

  pub length-decrement_at : (q : List Message) → length (decrement_at n q) ≡ length q
  unfolding decrement_at
  length-decrement_at [] = refl
  length-decrement_at (m ∷ q) = ground (arith, length-decrement_at q)

  pub length-erase : (q : List Message) → length (erase n q) ≤ length q
  unfolding erase
  length-erase [] = omega arith
  length-erase (m ∷ q) = ground (arith, length-erase q)

  pub erase-Ascending :
      (lo hi : Node) (q : List Message) → Ascending lo hi q → Ascending lo hi (erase n q)
  unfolding erase
  erase-Ascending lo hi [] a = a
  erase-Ascending lo hi (m ∷ q) a = ground (
    arith,
    erase-Ascending (suc m.node) hi q a.1,
    Ascending-widen (suc m.node) lo hi q (omega arith) a.1,
  )

  pub deref-erase :
      (lo hi k : Node) (q : List Message)
      → Ascending lo hi q
      → deref k (erase n q) ≡ (if n == k then none else deref k q)
  unfolding deref erase
  deref-erase lo hi k [] a = ground arith
  deref-erase lo hi k (m ∷ q) a =
      ground (arith, deref-erase (suc m.node) hi k q a.1, deref_below k (suc m.node) hi q a.1)

-- What stands behind an iterator that can be followed.
pub after-Ascending :
    (n lo hi : Node) (q : List Message) (m : Message)
    → Ascending lo hi q
    → deref n q ≡ some m
    → Ascending (suc n) hi (after n q)
unfolding deref after
after-Ascending n lo hi [] m a h = cc
after-Ascending n lo hi (x ∷ q) m a h = elim (Bool-cases (x.node == n)) [
  | inl e ↦ rw (e, after) (let e' : x.node ≡ n = ground arith in rw (← e') a.1)
  | inr e ↦ rw (e, after) (after-Ascending n (suc x.node) hi q m a.1 (ground arith))
]

pub deref-after :
    (n k lo hi : Node) (q : List Message) (m : Message)
    → Ascending lo hi q
    → deref n q ≡ some m
    → deref k (after n q) ≡ (if ltb n k then deref k q else none)
unfolding deref after
deref-after n k lo hi [] m a h = cc
deref-after n k lo hi (x ∷ q) m a h = ground (
  arith,
  deref-after n k (suc x.node) hi q m a.1,
  deref_below k (suc x.node) hi q a.1,
  deref_range n (suc x.node) hi q m a.1,
)

module _ (s : Session) where
  -- The node at which `skip_own` stops holds a message of another session.
  pub skip_own_stops :
      (q : List Message) (x lo hi : Node)
      → Ascending lo hi q
      → skip_own s q ≡ some x
      → (m : Message) × (deref x q ≡ some m) × (m.sender ≢ s)
  unfolding deref skip_own
  skip_own_stops [] x lo hi a h = cc
  skip_own_stops (y ∷ q) x lo hi a h = elim (Bool-cases (y.sender == s)) [
    | inl e ↦
        let (m, d, ne) = skip_own_stops q x (suc y.node) hi a.1 (rw (e, skip_own) at h) in
        (m, ground (arith, d, deref_range x (suc y.node) hi q m a.1 d), ne)
    | inr e ↦ (y, ground arith, ground arith)
  ]

  -- All that it passes are messages of `s`.
  pub skip_own_passes :
      (q : List Message) (x k lo hi : Node) (m : Message)
      → Ascending lo hi q
      → skip_own s q ≡ some x
      → deref k q ≡ some m
      → k < x
      → m.sender ≡ s
  unfolding deref skip_own
  skip_own_passes [] x k lo hi m a h d l = cc
  skip_own_passes (y ∷ q) x k lo hi m a h d l =
      ground
        (arith, skip_own_passes q x k (suc y.node) hi m a.1, deref_range k (suc y.node) hi q m a.1)

  pub skip_own-none :
      (q : List Message) (k : Node) (m : Message)
      → skip_own s q ≡ none
      → deref k q ≡ some m
      → m.sender ≡ s
  unfolding deref skip_own
  skip_own-none [] k m h d = cc
  skip_own-none (y ∷ q) k m h d = ground (arith, skip_own-none q k m)
