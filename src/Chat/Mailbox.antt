-- ===== src/Chat/Mailbox.antt =====
-- asio-shared/src/chat.cpp against what it promises: each session has a mailbox of the texts that it
-- is still to be sent, in order.
use cosec_examples.Prelude.{
  suc, ◌≤◌, ◌≡◌, ◌≢◌, refl, Option, none, some, List, [], ◌∷◌, ◌++◌, leb, ◌==◌, ◌&&◌, if◌then◌else◌,
  length, arith, not, String, append-nil,
}
use cosec_examples.Chat.{
  at_once, later, message_received, Session, Node, Message, Chat, find, deref, decrement,
  decrement_at, new_message, enqueue, erase_if_done, receive_message, max_queue,
}
use cosec_examples.Chat.Queue.{Ascending, Ascending-le, deref_range}
use cosec_examples.Chat.Entries.{find-start}
use cosec_examples.Chat.Invariant.{Inv}

-- The texts of the messages of others from the node on.
pub texts_from : Session → Node → List Message → List String
texts_from s p [] = []
texts_from s p (m ∷ q) =
    let rest = texts_from s p q in
    if leb p m.node && not (s == m.sender) then m.text ∷ rest else rest

abbrev pub pending : Session → Option (Option Node) → List Message → List String
pending s none q = []
pending s (some none) q = []
pending s (some (some p)) q = texts_from s p q

pub mailbox : Session → Chat → List String
mailbox s c = pending s (find s c.sessions) c.queue

texts_from-append :
    (s : Session) (p : Node) (q : List Message) (m : Message)
    → texts_from s p (q ++ m ∷ [])
      ≡ texts_from s p q ++ (if leb p m.node && not (s == m.sender) then m.text ∷ [] else [])
unfolding texts_from
texts_from-append s p [] m = ground arith
texts_from-append s p (x ∷ q) m = ground (arith, texts_from-append s p q m)

texts_from_end :
    (s : Session) (p lo hi : Node) (q : List Message)
    → Ascending lo hi q
    → hi ≤ p
    → texts_from s p q ≡ []
unfolding texts_from
texts_from_end s p lo hi [] a h = refl
texts_from_end s p lo hi (x ∷ q) a h =
    ground (arith, texts_from_end s p (suc x.node) hi q a.1, Ascending-le (suc x.node) hi q a.1)

-- The mailbox of a session, with a write under way, before and after the write's end.
module _ (c : Chat) (v : Inv c) (s : Session) (it : Node)
    (at_it : find s c.sessions ≡ some (some it)) (m : Message) (found : deref it c.queue ≡ some m)
    (other : m.sender ≢ s) where
  abbrev taken : List Message
  taken = decrement_at it c.queue

  abbrev left : List Message
  left = erase_if_done (decrement m).senders_remaining it taken

module _ (c : Chat) (v : Inv c) (s : Session) (text : String) (pos : Option Node)
    (registered : find s c.sessions ≡ some pos) where
  mailbox-enqueue :
      (k : Session) (o : Option Node)
      → find k c.sessions ≡ some o
      → mailbox k (enqueue s text c) ≡ (if k == s then mailbox k c else mailbox k c ++ text ∷ [])
  unfolding mailbox enqueue
  mailbox-enqueue k none h = ground (
    arith,
    h,
    find-start k s c.next_node c.sessions,
    texts_from-append k c.next_node c.queue (new_message s text c),
    texts_from_end k c.next_node 0 c.next_node c.queue v.ascending,
  )
  mailbox-enqueue k (some p) h =
      let (x, d, ne) = v.point k p h in
      ground (
        arith,
        h,
        find-start k s c.next_node c.sessions,
        texts_from-append k p c.queue (new_message s text c),
        append-nil (texts_from k p c.queue),
        deref_range p 0 c.next_node c.queue x v.ascending d,
      )

-- A message that is not dropped: when the strand runs the lambda at once, it reaches the end of the mailbox of
-- every registered session but its sender, whose mailbox stays; when it runs the lambda later, the message
-- has no result, since its text is gone.
pub mailbox-message_received :
    (c : Chat) (s : Session) (text : String) (pos : Option Node)
    → Inv c
    → find s c.sessions ≡ some pos
    → length c.sessions ≢ 1
    → length c.queue ≢ max_queue
    → ((c' : Chat) × (message_received at_once s text c ≡ some c')
        × ((k : Session) (o : Option Node)
            → find k c.sessions ≡ some o
            → mailbox k c' ≡ (if k == s then mailbox k c else mailbox k c ++ text ∷ [])))
      × (message_received later s text c ≡ none)
unfolding message_received receive_message
mailbox-message_received c s text pos v hs many room = (
  (
    receive_message s text c,
    refl,
    λ k o hk. ground (arith, mailbox-enqueue c v s text pos hs k o hk, many, room),
  ),
  ground (arith, many, room),
)
