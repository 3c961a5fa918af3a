-- ===== src/Chat/Destroyed.antt =====
-- asio-shared/src/chat.cpp: a session that leaves the room.
use cosec_examples.Prelude.{
  ◌+◌, ◌≤◌, ◌<◌, ◌≡◌, ◌≢◌, Option, none, some, List, leb, if◌then◌else◌, arith, false,
}
use cosec_examples.Chat.{
  Session, Node, Message, Entry, Chat, find, deref, decrement, is_front, erase_session, release,
  leave, session_destroyed,
}
use cosec_examples.Chat.Entries.{
  awaiting, count_if, find-erase_session, length-erase_session, erase_session-Distinct,
  awaiting_pos, awaiting-erase_session, awaiting-decrement,
}
use cosec_examples.Chat.Queue.{deref-node, decrement_lem}
use cosec_examples.Chat.Release.{
  length-release, release-Ascending, deref-release, release_keeps, release_behind,
}
use cosec_examples.Chat.Invariant.{AllPoint, AllCounted, Inv, senders_remaining-lt}

-- From `p` on the queue holds no message of `s`.
abbrev pub AllForeign : Session → Node → List Message → Type 0
AllForeign s p q = (n : Node) (m : Message) → deref n q ≡ some m → p ≤ n → m.sender ≢ s

module _ (c : Chat) (v : Inv c) (s : Session) (p : Node) (at_p : find s c.sessions ≡ some (some p))
    (foreign : AllForeign s p c.queue) (m : Message) (found : deref p c.queue ≡ some m) where
  abbrev rest : List Entry
  rest = erase_session s c.sessions

  -- One session less awaits each message from `p` on.
  counted_rest :
      (n : Node) (x : Message)
      → deref n c.queue ≡ some x
      → awaiting x rest + count_if (leb p n) ≡ x.senders_remaining
  counted_rest n x d = ground (
    arith,
    v.counted n x d,
    deref-node n c.queue x d,
    foreign n x d,
    awaiting-erase_session x s (some p) c.sessions at_p,
  )

  left-AllPoint : AllPoint (release p m c.queue) rest
  left-AllPoint k r h =
      let at_r : find k c.sessions ≡ some (some r) =
        ground (arith, find-erase_session k s c.sessions v.distinct) in
      let (x, d, ne) = v.point k r at_r in
      let shared : p ≤ r → 1 < x.senders_remaining = λ le.
        ground
          (arith, counted_rest r x d, deref-node r c.queue x d, awaiting_pos x k (some r) rest h) in
      let kept = release_keeps p c.next_node c.queue m v.ascending found r x d shared in
      (if leb p r then decrement x else x, kept, unfold decrement in ground arith)

  left-AllCounted : AllCounted (release p m c.queue) rest
  left-AllCounted n x d =
      let (y, dy, e) = deref-release p c.next_node c.queue m v.ascending found n x d in
      ground (
        arith,
        e,
        counted_rest n y dy,
        awaiting-decrement y rest,
        decrement_lem y,
        senders_remaining-lt c v n y dy,
      )

  left-Inv : Inv (record c { queue = release p m c.queue; sessions = rest })
  left-Inv = record {
    ascending = release-Ascending p c.next_node c.queue m v.ascending found;
    distinct = erase_session-Distinct s c.sessions v.distinct;
    point = left-AllPoint;
    counted = left-AllCounted;
    bounded = omega (arith, length-release p m c.queue, v.bounded);
    few = omega (arith, length-erase_session s c.sessions, v.few);
  }

idle-Inv :
    (c : Chat) (s : Session)
    → find s c.sessions ≡ some none
    → Inv c
    → Inv (record c { sessions = erase_session s c.sessions })
idle-Inv c s h v = record {
  ascending = v.ascending;
  distinct = erase_session-Distinct s c.sessions v.distinct;
  point = λ k r at_r. v.point k r (ground (arith, find-erase_session k s c.sessions v.distinct));
  counted = λ n m d. omega (arith, v.counted n m d, awaiting-erase_session m s none c.sessions h);
  bounded = v.bounded;
  few = omega (arith, length-erase_session s c.sessions, v.few);
}

-- What is asked of a session that leaves: none of its own messages stands in the queue at its
-- position or behind it.
abbrev pub MayLeave : Session → Option Node → List Message → Type 0
MayLeave s none q = Unit {0}
MayLeave s (some p) q = AllForeign s p q

-- Such a registered session leaves without following a dangling iterator, and the books are kept.
pub session_destroyed-Inv :
    (c : Chat) (s : Session) (pos : Option Node)
    → find s c.sessions ≡ some pos
    → MayLeave s pos c.queue
    → Inv c
    → (c' : Chat) × (session_destroyed s c ≡ some c') × Inv c'
unfolding session_destroyed leave
session_destroyed-Inv c s none h ok v = (
  record c { sessions = erase_session s c.sessions },
  rw (h, session_destroyed),
  idle-Inv c s h v,
)
session_destroyed-Inv c s (some p) h ok v =
    let (m, d, ne) = v.point s p h in
    (
      record c { queue = release p m c.queue; sessions = erase_session s c.sessions },
      rw (h, session_destroyed) (rw (d, leave)),
      left-Inv c v s p h ok m d,
    )

destroyed_queue :
    (c c' : Chat) (s : Session) (p : Node) (m : Message)
    → find s c.sessions ≡ some (some p)
    → deref p c.queue ≡ some m
    → session_destroyed s c ≡ some c'
    → c' ≡ record c { queue = release p m c.queue; sessions = erase_session s c.sessions }
unfolding session_destroyed leave
destroyed_queue c c' s p m h d e = ground (arith, h, d, e)

-- The counts of the leaving session's own messages are taken down too, though it was never counted
-- as one that awaits them: if one that two sessions await stands at the position or behind, the books
-- are wrong afterwards.
pub session_destroyed_own :
    (c c' : Chat) (s : Session) (p n : Node) (x : Message)
    → Inv c
    → find s c.sessions ≡ some (some p)
    → deref n c.queue ≡ some x
    → p ≤ n
    → x.sender ≡ s
    → 1 < x.senders_remaining
    → session_destroyed s c ≡ some c'
    → ¬ Inv c'
session_destroyed_own c c' s p n x v h d le own two e v' =
    let (m, dm, ne) = v.point s p h in
    let c'_lem = destroyed_queue c c' s p m h dm e in
    let kept = release_keeps p c.next_node c.queue m v.ascending dm n x d (λ _. two) in
    ground (
      arith,
      c'_lem,
      kept,
      v'.counted n (decrement x),
      awaiting-decrement x (erase_session s c.sessions),
      awaiting-erase_session x s (some p) c.sessions h,
      v.counted n x d,
      decrement_lem x,
      senders_remaining-lt c v n x d,
    )

-- Where the position is not the first, a message at or behind it that only the leaving session
-- awaits stays in the queue, and no session is left to take it out.
pub session_destroyed_stale :
    (c c' : Chat) (s : Session) (p n : Node) (x : Message)
    → Inv c
    → find s c.sessions ≡ some (some p)
    → is_front p c.queue ≡ false
    → deref n c.queue ≡ some x
    → p ≤ n
    → x.senders_remaining ≡ 1
    → session_destroyed s c ≡ some c'
    → (y : Message) × (deref n c'.queue ≡ some y) × (y.senders_remaining ≡ 0)
session_destroyed_stale c c' s p n x v h behind d le one e =
    let (m, dm, ne) = v.point s p h in
    (
      decrement x,
      ground (
        arith,
        destroyed_queue c c' s p m h dm e,
        d,
        release_behind p c.next_node c.queue m v.ascending dm n behind,
      ),
      ground (arith, decrement_lem x),
    )
