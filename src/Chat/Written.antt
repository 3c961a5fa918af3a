-- ===== src/Chat/Written.antt =====
-- asio-shared/src/chat.cpp: the end of a write keeps the books.
use cosec_examples.Prelude.{
  suc, ◌<◌, ◌≡◌, ◌≢◌, ap, false, Option, none, some, inl, inr, ltb, ◌==◌, if◌then◌else◌, arith,
  Bool-cases, Option-cases,
}
use cosec_examples.Chat.{
  Session, Node, Message, Chat, find, assign, deref, decrement, decrement_at, after, skip_own,
  written, completed,
}
use cosec_examples.Chat.Entries.{
  awaits, awaiting, count_if, find-assign, length-assign, assign-Distinct, awaiting_pos,
  awaiting-assign, awaiting-decrement,
}
use cosec_examples.Chat.Queue.{
  Ascending, decrement_lem, deref-node, deref_range, decrement_at-Ascending, deref-decrement_at,
  length-decrement_at, length-erase, erase-Ascending, deref-erase, after-Ascending, deref-after,
  skip_own_stops, skip_own_passes, skip_own-none,
}
use cosec_examples.Chat.Invariant.{AllPoint, AllCounted, AllNeeded, Inv, senders_remaining-lt}

-- A write that ends for a session at the position of which it was started.
module _ (c : Chat) (v : Inv c) (s : Session) (it : Node)
    (at_it : find s c.sessions ≡ some (some it)) (m : Message)
    (found : deref it c.queue ≡ some m) where
  abbrev pub next : Option Node
  next = skip_own s (after it (decrement_at it c.queue))

  behind : Ascending (suc it) c.next_node (after it (decrement_at it c.queue))
  behind =
      after-Ascending it 0 c.next_node (decrement_at it c.queue) (decrement m)
        (decrement_at-Ascending it 0 c.next_node c.queue v.ascending)
        (ground (arith, deref-decrement_at it it c.queue))

  deref-behind :
      (k : Node)
      → deref k (after it (decrement_at it c.queue)) ≡ (if ltb it k then deref k c.queue else none)
  deref-behind k = ground (
    arith,
    deref-decrement_at it k c.queue,
    deref-decrement_at it it c.queue,
    deref-after it k 0 c.next_node (decrement_at it c.queue) (decrement m)
        (decrement_at-Ascending it 0 c.next_node c.queue v.ascending),
  )

  -- A message that is not the one sent is awaited from the old position on just if it is awaited
  -- from the new one on.
  awaits-next :
      (k : Node) (x : Message)
      → deref k c.queue ≡ some x
      → k ≢ it
      → awaits x s (some it) ≡ awaits x s next
  awaits-next k x d ne = elim (Option-cases next) [
    | inl e ↦ rw e (
        ground (
          arith,
          deref-node k c.queue x d,
          deref-behind k,
          skip_own-none s (after it (decrement_at it c.queue)) k x e,
        ))
    | inr (y, e) ↦
        let (w, dw, nw) =
          skip_own_stops s (after it (decrement_at it c.queue)) y (suc it) c.next_node behind e in
        rw e (
          ground (
            arith,
            deref-node k c.queue x d,
            deref-behind k,
            deref_range y (suc it) c.next_node (after it (decrement_at it c.queue)) w behind dw,
            skip_own_passes s (after it (decrement_at it c.queue)) y k (suc it) c.next_node x behind
                e,
          ))
  ]

  found_sender : m.sender ≢ s
  found_sender e = let (x, d, ne) = v.point s it at_it in ne (ground (arith, d))

  awaiting-completed :
      (k : Node) (x : Message)
      → deref k c.queue ≡ some x
      → k ≢ it
      → awaiting x (assign s next c.sessions) ≡ awaiting x c.sessions
  awaiting-completed k x d ne = omega (
    arith,
    awaiting-assign x s next (some it) c.sessions at_it,
    ap count_if (awaits-next k x d ne),
  )

  awaited : 0 < m.senders_remaining
  awaited = rw (v.counted it m found) (
      awaiting_pos m s (some it) c.sessions at_it
        (ground (arith, found_sender, deref-node it c.queue m found)))

  pub completed_remaining : (decrement m).senders_remaining ≡ awaiting m (assign s next c.sessions)
  completed_remaining = ground (
    arith,
    at_next,
    awaiting-assign m s next (some it) c.sessions at_it,
    deref-node it c.queue m found,
    found_sender,
    v.counted it m found,
    decrement_lem m awaited (senders_remaining-lt c v it m found),
  )
    where
      at_next : awaits m s next ≡ false
      at_next = elim (Option-cases next) [
        | inl e ↦ rw e
        | inr (y, e) ↦
            let (w, dw, nw) =
              skip_own_stops s (after it (decrement_at it c.queue)) y (suc it) c.next_node behind
                e in
            rw e (
              ground (
                arith,
                deref-node it c.queue m found,
                deref_range y (suc it) c.next_node (after it (decrement_at it c.queue)) w behind dw,
              ))
      ]

  deref-completed :
      (k : Node)
      → deref k (completed s it m c).queue ≡ (
          if it == k
          then (if (decrement m).senders_remaining == 0 then none else some (decrement m))
          else deref k c.queue)
  unfolding completed
  deref-completed k = ground (
    arith,
    deref-decrement_at it k c.queue,
    deref-erase it 0 c.next_node k (decrement_at it c.queue)
        (decrement_at-Ascending it 0 c.next_node c.queue v.ascending),
  )

  completed-AllPoint : AllPoint (completed s it m c).queue (assign s next c.sessions)
  completed-AllPoint k p h = elim (Bool-cases (s == k)) [
    | inl e ↦
        let to_next : next ≡ some p = ground (arith, find-assign k s next c.sessions) in
        let (w, dw, nw) =
          skip_own_stops s (after it (decrement_at it c.queue)) p (suc it) c.next_node behind
            to_next in
        (w, ground (arith, dw, deref-behind p, deref-completed p), ground arith)
    | inr e ↦
        let at_p : find k c.sessions ≡ some (some p) =
          ground (arith, find-assign k s next c.sessions) in
        let (x, d, ne) = v.point k p at_p in
        elim (Bool-cases (it == p)) [
          | inl here ↦ (
            decrement m,
            kept k p (ground arith) h (ground (arith, d)),
            unfold decrement in ground (arith, d),
          )
          | inr there ↦ (x, ground (arith, d, deref-completed p), ne)
        ]
  ]
    where
      kept :
          (j : Session) (r : Node)
          → r ≡ it
          → find j (assign s next c.sessions) ≡ some (some r)
          → m.sender ≢ j
          → deref r (completed s it m c).queue ≡ some (decrement m)
      kept j r e at_r other = ground (
        arith,
        deref-completed r,
        completed_remaining,
        deref-node it c.queue m found,
        awaiting_pos m j (some r) (assign s next c.sessions) at_r,
      )

  completed-AllCounted : AllCounted (completed s it m c).queue (assign s next c.sessions)
  completed-AllCounted n x d = elim (Bool-cases (it == n)) [
    | inl e ↦ ground (
      arith,
      d,
      deref-completed n,
      completed_remaining,
      awaiting-decrement m (assign s next c.sessions),
    )
    | inr e ↦
        let old : deref n c.queue ≡ some x = ground (arith, d, deref-completed n) in
        ground (arith, v.counted n x old, awaiting-completed n x old)
  ]

  completed-Inv : Inv (completed s it m c)
  unfolding completed
  completed-Inv = record {
    ascending = ground (
      arith,
      decrement_at-Ascending it 0 c.next_node c.queue v.ascending,
      erase-Ascending it 0 c.next_node (decrement_at it c.queue),
    );
    distinct = assign-Distinct s next c.sessions v.distinct;
    point = completed-AllPoint;
    counted = completed-AllCounted;
    bounded = ground (
      arith,
      v.bounded,
      length-decrement_at it c.queue,
      length-erase it (decrement_at it c.queue),
    );
    few = omega (arith, length-assign s next (some it) c.sessions at_it, v.few);
  }

-- The end of a write under way follows no dangling iterator and keeps the books.
pub written-Inv :
    (c : Chat) (s : Session) (it : Node)
    → find s c.sessions ≡ some (some it)
    → Inv c
    → (c' : Chat) × (written s it c ≡ some c') × Inv c'
unfolding written
written-Inv c s it h v =
    let (m, d, ne) = v.point s it h in
    (completed s it m c, rw (d, written), completed-Inv c v s it h m d)

pub written-AllNeeded :
    (c c' : Chat) (s : Session) (it : Node)
    → find s c.sessions ≡ some (some it)
    → Inv c
    → written s it c ≡ some c'
    → AllNeeded c.queue
    → AllNeeded c'.queue
unfolding written
written-AllNeeded c c' s it h v e needed n x dn =
    let (m, d, ne) = v.point s it h in
    let e' : completed s it m c ≡ c' = cc (rw (d, written) at e) in
    let dn' : deref n (completed s it m c).queue ≡ some x = rw e' dn in
    ground (arith, dn', deref-completed c v s it h m d n, needed n x)
