-- ===== src/Chat/Invariant.antt =====
-- asio-shared/src/chat.cpp: the book-keeping of the chat room, and the calls that keep it.
use cosec_examples.Prelude.{
  suc, ◌≤◌, ◌<◌, ◌≡◌, ◌≢◌, sym, ◌∙◌, some, List, inl, inr, length, arith, Option-cases,
}
use cosec_examples.Chat.{
  Session, Node, Message, Entry, Chat, find, deref, register, session_created, max_queue, size_mod,
}
use cosec_examples.Chat.Entries.{Distinct, awaiting, awaiting-le, awaiting-register}
use cosec_examples.Chat.Queue.{Ascending}

-- The position of a session is a message in the queue that another session has sent.
abbrev pub AllPoint : List Message → List Entry → Type 0
AllPoint q es =
    (k : Session) (p : Node)
    → find k es ≡ some (some p)
    → (m : Message) × (deref p q ≡ some m) × (m.sender ≢ k)

-- `senders_remaining_` is the number of sessions that are still to be sent the message.
abbrev pub AllCounted : List Message → List Entry → Type 0
AllCounted q es =
    (n : Node) (m : Message) → deref n q ≡ some m → m.senders_remaining ≡ awaiting m es

-- Every message in the queue is still to be sent to some session.
abbrev pub AllNeeded : List Message → Type 0
AllNeeded q = (n : Node) (m : Message) → deref n q ≡ some m → 0 < m.senders_remaining

pub record Inv (c : Chat) : Type 0 where
  pub ascending : Ascending 0 c.next_node c.queue
  pub distinct : Distinct c.sessions
  pub point : AllPoint c.queue c.sessions
  pub counted : AllCounted c.queue c.sessions
  pub bounded : length c.queue ≤ max_queue
  pub few : length c.sessions < size_mod

-- No iterator is followed that dangles, and no count wraps, where `c` may be.
module _ (c : Chat) (v : Inv c) where
  pub senders_remaining-lt :
      (n : Node) (m : Message) → deref n c.queue ≡ some m → m.senders_remaining < size_mod
  senders_remaining-lt n m d = omega (arith, v.counted n m d, awaiting-le m c.sessions, v.few)

register-Distinct :
    (s : Session) (es : List Entry) → Distinct es → Distinct (register s (find s es) es)
register-Distinct s es d = elim (Option-cases (find s es)) [
  | inl e ↦ rw e (e, d)
  | inr (pos, e) ↦ rw e d
]

find-register :
    (k s : Session) (p : Node) (es : List Entry)
    → find k (register s (find s es) es) ≡ some (some p)
    → find k es ≡ some (some p)
unfolding find
find-register k s p es h = elim (Option-cases (find s es)) [
  | inl e ↦ ground arith
  | inr (pos, e) ↦ ground arith
]

pub session_created-Inv :
    (c : Chat) (s : Session)
    → suc (length c.sessions) < size_mod
    → Inv c
    → Inv (session_created s c)
unfolding session_created
session_created-Inv c s few v = record {
  ascending = v.ascending;
  distinct = register-Distinct s c.sessions v.distinct;
  point = λ k p h. v.point k p (find-register k s p c.sessions h);
  counted = λ n m d. v.counted n m d ∙ sym (awaiting-register m s c.sessions);
  bounded = v.bounded;
  few = ground (arith, v.few);
}
