-- ===== src/Chat/Release.antt =====
-- asio-shared/src/chat.cpp: what session_destroyed does to `queue_`, read through iterators.
use cosec_examples.Prelude.{
  suc, ◌≤◌, ◌<◌, ◌≡◌, refl, sym, ◌∙◌, inl, inr, Option, none, some, List, [], ◌∷◌, map, leb, ◌==◌,
  ◌&&◌, if◌then◌else◌, length, length-map, arith, true, false, Bool-cases,
}
use cosec_examples.Chat.{
  Node, Message, deref, decrement, decrement_from, drop_awaited, after, is_front, release,
}
use cosec_examples.Chat.Queue.{
  Ascending, Ascending-widen, decremented, deref_below, deref_range, after-Ascending, deref-after,
}

pub deref-map-decrement :
    (k : Node) (q : List Message) → deref k (map decrement q) ≡ decremented (deref k q)
unfolding deref decrement
deref-map-decrement k [] = refl
deref-map-decrement k (m ∷ q) = ground (arith, deref-map-decrement k q)

map-decrement-Ascending :
    (lo hi : Node) (q : List Message) → Ascending lo hi q → Ascending lo hi (map decrement q)
unfolding decrement
map-decrement-Ascending lo hi [] a = a
map-decrement-Ascending lo hi (m ∷ q) a = (a.0, map-decrement-Ascending (suc m.node) hi q a.1)

decrement_from-Ascending :
    (n lo hi : Node) (q : List Message) → Ascending lo hi q → Ascending lo hi (decrement_from n q)
unfolding decrement_from decrement
decrement_from-Ascending n lo hi [] a = a
decrement_from-Ascending n lo hi (m ∷ q) a = ground (
  arith,
  decrement_from-Ascending n (suc m.node) hi q a.1,
  map-decrement-Ascending (suc m.node) hi q a.1,
)

-- The loop takes one off every count from the position on.
pub deref-decrement_from :
    (n k lo hi : Node) (q : List Message) (m : Message)
    → Ascending lo hi q
    → deref n q ≡ some m
    → deref k (decrement_from n q) ≡ (if leb n k then decremented (deref k q) else deref k q)
unfolding deref decrement_from
deref-decrement_from n k lo hi [] m a h = cc
deref-decrement_from n k lo hi (x ∷ q) m a h = elim (Bool-cases (x.node == n)) [
  | inl e ↦
      rw (e, decrement_from)
        (ground (arith, deref-map-decrement k (x ∷ q), deref_below k (suc x.node) hi q a.1))
  | inr e ↦
      rw (e, decrement_from)
        (ground (
          arith,
          deref-decrement_from n k (suc x.node) hi q m a.1,
          deref_range n (suc x.node) hi q m a.1,
        ))
]

drop_awaited-Ascending :
    (lo hi : Node) (q : List Message) → Ascending lo hi q → Ascending lo hi (drop_awaited q)
unfolding drop_awaited
drop_awaited-Ascending lo hi [] a = a
drop_awaited-Ascending lo hi (m ∷ q) a = ground (
  arith,
  drop_awaited-Ascending (suc m.node) hi q a.1,
  Ascending-widen (suc m.node) lo hi (drop_awaited q) (omega arith),
)

-- What is left after the erasure was there before,
pub deref-drop_awaited :
    (k lo hi : Node) (q : List Message) (m : Message)
    → Ascending lo hi q
    → deref k (drop_awaited q) ≡ some m
    → deref k q ≡ some m
unfolding deref drop_awaited
deref-drop_awaited k lo hi [] m a h = h
deref-drop_awaited k lo hi (x ∷ q) m a h =
    ground
      (arith, deref-drop_awaited k (suc x.node) hi q m a.1, deref_range k (suc x.node) hi q m a.1)

-- and a message that two sessions still await is left.
pub drop_awaited_keeps :
    (k : Node) (q : List Message) (m : Message)
    → deref k q ≡ some m
    → 1 < m.senders_remaining
    → deref k (drop_awaited q) ≡ some m
unfolding deref drop_awaited
drop_awaited_keeps k [] m h l = cc
drop_awaited_keeps k (x ∷ q) m h l = ground (arith, drop_awaited_keeps k q m)

length-drop_awaited : (q : List Message) → length (drop_awaited q) ≤ length q
unfolding drop_awaited
length-drop_awaited [] = omega arith
length-drop_awaited (m ∷ q) = ground (arith, length-drop_awaited q)

length-after : (n : Node) (q : List Message) → length (after n q) ≤ length q
unfolding after
length-after n [] = omega arith
length-after n (m ∷ q) = ground (arith, length-after n q)

length-decrement_from : (n : Node) (q : List Message) → length (decrement_from n q) ≡ length q
unfolding decrement_from
length-decrement_from n [] = refl
length-decrement_from n (m ∷ q) = ground (arith, length-decrement_from n q, length-map q decrement)

pub length-release : (n : Node) (m : Message) (q : List Message) → length (release n m q) ≤ length q
unfolding release
length-release n m q = ground (
  arith,
  length-map (drop_awaited (after n q)) decrement,
  length-drop_awaited (after n q),
  length-after n q,
  length-decrement_from n q,
)

front-le :
    (n k lo hi : Node) (q : List Message) (x : Message)
    → Ascending lo hi q
    → is_front n q ≡ true
    → deref k q ≡ some x
    → n ≤ k
unfolding deref
front-le n k lo hi [] x a f h = cc
front-le n k lo hi (y ∷ q) x a f h = ground (arith, deref_range k (suc y.node) hi q x a.1)

decremented-some :
    (o : Option Message) (x : Message)
    → decremented o ≡ some x
    → (y : Message) × (o ≡ some y) × (x ≡ decrement y)
decremented-some none x h = cc
decremented-some (some y) x h = (y, refl, cc)

module _ (n hi : Node) (q : List Message) (m : Message) (a : Ascending 0 hi q)
    (found : deref n q ≡ some m) where
  pub release-Ascending : Ascending 0 hi (release n m q)
  unfolding release
  release-Ascending = ground (
    arith,
    decrement_from-Ascending n 0 hi q a,
    map-decrement-Ascending 0 hi (drop_awaited (after n q)) (
        drop_awaited-Ascending 0 hi (after n q) (
          Ascending-widen (suc n) 0 hi (after n q) (omega arith)
            (after-Ascending n 0 hi q m a found))),
  )

  -- A message behind the position that is left after the release has lost one from its count; one
  -- before it is as it was.
  pub deref-release :
      (k : Node) (x : Message)
      → deref k (release n m q) ≡ some x
      → (y : Message) × (deref k q ≡ some y) × (x ≡ (if leb n k then decrement y else y))
  unfolding release
  deref-release k x h = elim (Bool-cases (is_front n q && m.senders_remaining == 1)) [
    | inl front ↦
        let kept =
          decremented-some (deref k (drop_awaited (after n q))) x
            (sym (deref-map-decrement k (drop_awaited (after n q))) ∙ rw (front, release) at h) in
        let (y, dy, e) = kept in
        let there =
          deref-drop_awaited k (suc n) hi (after n q) y (after-Ascending n 0 hi q m a found) dy in
        (
          y,
          ground (arith, there, deref-after n k 0 hi q m a found),
          ground (arith, there, deref-after n k 0 hi q m a found, e),
        )
    | inr behind ↦
        let h' : (if leb n k then decremented (deref k q) else deref k q) ≡ some x =
          sym (deref-decrement_from n k 0 hi q m a found) ∙ rw (behind, release) at h in
        elim (Bool-cases (leb n k)) [
          | inl le ↦
              let (y, dy, e) = decremented-some (deref k q) x (rw le at h') in
              (y, dy, ground (arith, le, e))
          | inr lt ↦ (x, rw lt at h', ground (arith, lt))
        ]
  ]

  -- A message before the position, or that two sessions await, is left after the release.
  pub release_keeps :
      (k : Node) (x : Message)
      → deref k q ≡ some x
      → (n ≤ k → 1 < x.senders_remaining)
      → deref k (release n m q) ≡ some (if leb n k then decrement x else x)
  unfolding release
  release_keeps k x h l = elim (Bool-cases (is_front n q && m.senders_remaining == 1)) [
    | inl front ↦
        rw (front, release)
          (ground (
            arith,
            h,
            found,
            front-le n k 0 hi q x a,
            deref-after n k 0 hi q m a found,
            drop_awaited_keeps k (after n q) x,
            deref-map-decrement k (drop_awaited (after n q)),
          ))
    | inr behind ↦
        rw (behind, release) (ground (arith, h, deref-decrement_from n k 0 hi q m a found))
  ]

  -- Where the position is not the first, every message stays.
  pub release_behind :
      (k : Node)
      → is_front n q ≡ false
      → deref k (release n m q) ≡ (if leb n k then decremented (deref k q) else deref k q)
  unfolding release
  release_behind k behind = rw (behind, release) (deref-decrement_from n k 0 hi q m a found)
