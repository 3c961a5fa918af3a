-- ===== src/Chat/Received.antt =====
-- asio-shared/src/chat.cpp: receive_message keeps the books.
use cosec_examples.Prelude.{
  ◌⊎◌, ◌+◌, ◌≡◌, ◌≢◌, refl, subst, Option, none, some, [], ◌∷◌, ◌++◌, String, inl, inr, ◌==◌,
  if◌then◌else◌, length, length-append, arith, Bool-cases,
}
use cosec_examples.Chat.{
  Execution, at_once, later, message_received, Session, Node, Message, Chat, find, deref, start,
  new_message, enqueue, receive_message, max_queue,
}
use cosec_examples.Chat.Entries.{
  awaiting, AllReach, find-start, length-start, start-Distinct, awaiting-start, awaiting-start_new,
}
use cosec_examples.Chat.Queue.{deref-node, deref_range, Ascending-append, deref-append}
use cosec_examples.Chat.Invariant.{AllPoint, AllCounted, AllNeeded, Inv}

-- A message of a session that is registered, put into a queue that is not full.
module _ (c : Chat) (v : Inv c) (s : Session) (text : String) (pos : Option Node)
    (registered : find s c.sessions ≡ some pos) where
  abbrev new : Message
  new = new_message s text c

  reached : AllReach c.next_node c.sessions
  reached k p h =
      let (m, d, _) = v.point k p h in
      omega (arith, deref_range p 0 c.next_node c.queue m v.ascending d)

  new_counted : new.senders_remaining ≡ awaiting new (start s c.next_node c.sessions)
  new_counted = ground (arith, awaiting-start_new new c.sessions v.distinct reached, v.few)

  new_remaining : new.senders_remaining + 1 ≡ length c.sessions
  new_remaining = ground (arith, awaiting-start_new new c.sessions v.distinct reached, v.few)

  appended :
      (n : Node)
      → deref n (c.queue ++ new_message s text c ∷ [])
        ≡ (if c.next_node == n then some (new_message s text c) else deref n c.queue)
  appended n = deref-append n 0 c.next_node c.queue (new_message s text c) refl v.ascending

  enqueue-AllPoint :
      AllPoint (c.queue ++ new_message s text c ∷ []) (start s c.next_node c.sessions)
  enqueue-AllPoint k p h = point_of (find k c.sessions) refl
    where
      point_of :
          (o : Option (Option Node))
          → find k c.sessions ≡ o
          → (m : Message) × (deref p (c.queue ++ new_message s text c ∷ []) ≡ some m)
            × (m.sender ≢ k)
      point_of none e = cc (find-start k s c.next_node c.sessions)
      point_of (some none) e = (
        new_message s text c,
        ground (arith, find-start k s c.next_node c.sessions, appended p),
        ground (arith, find-start k s c.next_node c.sessions),
      )
      point_of (some (some o)) e =
          let at_p : find k c.sessions ≡ some (some p) =
            ground (arith, find-start k s c.next_node c.sessions) in
          let (m, d, ne) = v.point k p at_p in
          (
            m,
            ground (
              arith,
              d,
              reached k p at_p,
              deref_range p 0 c.next_node c.queue m v.ascending d,
              appended p,
            ),
            ne,
          )

  enqueue-AllCounted :
      AllCounted (c.queue ++ new_message s text c ∷ []) (start s c.next_node c.sessions)
  enqueue-AllCounted n m d = elim (Bool-cases (c.next_node == n)) [
    | inl e ↦
        let new_m : new_message s text c ≡ m = ground (arith, appended n) in
        subst IsCounted new_m new_counted
    | inr e ↦
        let old : deref n c.queue ≡ some m = ground (arith, appended n) in
        omega (
          arith,
          v.counted n m old,
          awaiting-start m s c.next_node c.sessions,
          deref-node n c.queue m old,
          deref_range n 0 c.next_node c.queue m v.ascending old,
        )
  ]
    where
      IsCounted : Message → Type 0
      IsCounted x = x.senders_remaining ≡ awaiting x (start s c.next_node c.sessions)

  enqueue-Inv : length c.sessions ≢ 1 → length c.queue ≢ max_queue → Inv (enqueue s text c)
  unfolding enqueue
  enqueue-Inv many room = record {
    ascending = Ascending-append 0 c.next_node c.queue (new_message s text c) refl v.ascending;
    distinct = start-Distinct s c.next_node c.sessions v.distinct;
    point = enqueue-AllPoint;
    counted = enqueue-AllCounted;
    bounded = omega (arith, length-append c.queue (new_message s text c ∷ []), v.bounded);
    few = omega (arith, length-start s c.next_node c.sessions, v.few);
  }

  enqueue-AllNeeded : length c.sessions ≢ 1 → AllNeeded c.queue → AllNeeded (enqueue s text c).queue
  unfolding enqueue
  enqueue-AllNeeded many h n m d = ground (arith, d, appended n, h n m, new_remaining)

pub receive_message-Inv :
    (c : Chat) (s : Session) (text : String) (pos : Option Node)
    → find s c.sessions ≡ some pos
    → Inv c
    → Inv (receive_message s text c)
unfolding receive_message
receive_message-Inv c s text pos h v = elim (Bool-cases (length c.sessions == 1)) [
  | inl one ↦ rw one v
  | inr many ↦ elim (Bool-cases (length c.queue == max_queue)) [
    | inl full ↦ rw (many, full) v
    | inr room ↦ rw (many, room) (enqueue-Inv c v s text pos h (ground arith) (ground arith))
  ]
]

pub receive_message-AllNeeded :
    (c : Chat) (s : Session) (text : String) (pos : Option Node)
    → find s c.sessions ≡ some pos
    → Inv c
    → AllNeeded c.queue
    → AllNeeded (receive_message s text c).queue
unfolding receive_message
receive_message-AllNeeded c s text pos h v needed = elim (Bool-cases (length c.sessions == 1)) [
  | inl one ↦ rw one needed
  | inr many ↦ elim (Bool-cases (length c.queue == max_queue)) [
    | inl full ↦ rw (many, full) needed
    | inr room ↦ rw (many, room) (enqueue-AllNeeded c v s text pos h (ground arith) needed)
  ]
]

-- A call that has a result is one at once, or changes nothing.
message_received_cases :
    (e : Execution) (c c' : Chat) (s : Session) (text : String)
    → message_received e s text c ≡ some c'
    → (receive_message s text c ≡ c') ⊎ (c ≡ c')
unfolding message_received
message_received_cases at_once c c' s text h = inl (cc)
message_received_cases later c c' s text h = inr (ground (arith, h))

pub message_received-Inv :
    (e : Execution) (c c' : Chat) (s : Session) (text : String) (pos : Option Node)
    → find s c.sessions ≡ some pos
    → message_received e s text c ≡ some c'
    → Inv c
    → Inv c'
message_received-Inv e c c' s text pos h run v = elim (message_received_cases e c c' s text run) [
  | inl same ↦ subst Inv same (receive_message-Inv c s text pos h v)
  | inr same ↦ subst Inv same v
]

pub message_received-AllNeeded :
    (e : Execution) (c c' : Chat) (s : Session) (text : String) (pos : Option Node)
    → find s c.sessions ≡ some pos
    → message_received e s text c ≡ some c'
    → Inv c
    → AllNeeded c.queue
    → AllNeeded c'.queue
message_received-AllNeeded e c c' s text pos h run v needed =
    elim (message_received_cases e c c' s text run) [
      | inl same ↦
          subst (λ d. AllNeeded d.queue) same (receive_message-AllNeeded c s text pos h v needed)
      | inr same ↦ subst (λ d. AllNeeded d.queue) same needed
    ]
