-- ===== src/Chat/Room.antt =====
-- asio-shared/src/chat.cpp: the histories of a chat room. The strand runs the lambdas one at a time; the
-- clients choose which. The handler of an ended write comes before the lambda of its session's departure.
use cosec_examples.Prelude.{
  suc, ◌<◌, ◌≡◌, refl, subst, Option, some, List, [], ◌∷◌, String, length, arith,
}
use cosec_examples.Chat.{
  Execution, Session, Node, Message, Chat, find, deref, session_created, session_destroyed,
  message_received, written, size_mod,
}
use cosec_examples.Chat.Entries.{Distinct, AllIdle, awaiting_idle}
use cosec_examples.Chat.Invariant.{AllNeeded, AllCounted, Inv, session_created-Inv}
use cosec_examples.Chat.Queue.{deref_head}
use cosec_examples.Chat.Received.{message_received-Inv, message_received-AllNeeded}
use cosec_examples.Chat.Written.{written-Inv, written-AllNeeded}
use cosec_examples.Chat.Destroyed.{MayLeave, session_destroyed-Inv}

abbrev pub empty : Chat
empty = record { queue = []; sessions = []; next_node = 0 }

-- A call that no session leaves by.
pub data Stay (c : Chat) : Chat → Type 0 where
  created : (s : Session) → suc (length c.sessions) < size_mod → Stay c (session_created s c)
  received :
      (e : Execution) (s : Session) (text : String) (pos : Option Node) {c' : Chat}
      → find s c.sessions ≡ some pos
      → message_received e s text c ≡ some c'
      → Stay c c'
  finished :
      (s : Session) (it : Node) {c' : Chat}
      → find s c.sessions ≡ some (some it)
      → written s it c ≡ some c'
      → Stay c c'

pub data Step (c : Chat) (c' : Chat) : Type 0 where
  stays : Stay c c' → Step c c'
  leaves :
      (s : Session) (pos : Option Node)
      → find s c.sessions ≡ some pos
      → MayLeave s pos c.queue
      → session_destroyed s c ≡ some c'
      → Step c c'

pub data Reach (R : Chat → Chat → Type 0) : Chat → Type 0 where
  here : Reach R empty
  next : {c c' : Chat} → Reach R c → R c c' → Reach R c'

Inv-some : {o : Option Chat} {c : Chat} → (c' : Chat) × (o ≡ some c') × Inv c' → o ≡ some c → Inv c
Inv-some (c', e, v) h = subst Inv (cc) v

Stay-Inv : {c c' : Chat} → Stay c c' → Inv c → Inv c'
Stay-Inv {c} (created s few) v = session_created-Inv c s few v
Stay-Inv {c} {c'} (received e s text pos h run) v = message_received-Inv e c c' s text pos h run v
Stay-Inv {c} (finished s it h e) v = Inv-some (written-Inv c s it h v) e

Step-Inv : {c c' : Chat} → Step c c' → Inv c → Inv c'
Step-Inv (stays st) v = Stay-Inv st v
Step-Inv {c} (leaves s pos h ok e) v = Inv-some (session_destroyed-Inv c s pos h ok v) e

pub empty-Inv : Inv empty
unfolding find deref
empty-Inv = record {
  ascending = omega arith;
  distinct = tt;
  point = λ k p h. cc;
  counted = λ n m h. cc;
  bounded = omega arith;
  few = omega arith;
}

-- Whatever the sessions do, as long as none leaves while one of its own messages stands at or behind
-- its position, the books of the room are kept.
pub Reach-Inv : {c : Chat} → Reach Step c → Inv c
Reach-Inv here = empty-Inv
Reach-Inv (next r st) = Step-Inv st (Reach-Inv r)

pub Reach-Stay-Inv : {c : Chat} → Reach Stay c → Inv c
Reach-Stay-Inv here = empty-Inv
Reach-Stay-Inv (next r st) = Stay-Inv st (Reach-Stay-Inv r)

Stay-AllNeeded : {c c' : Chat} → Stay c c' → Inv c → AllNeeded c.queue → AllNeeded c'.queue
unfolding session_created
Stay-AllNeeded {c} (created s few) v n = n
Stay-AllNeeded {c} {c'} (received e s text pos h run) v n =
    message_received-AllNeeded e c c' s text pos h run v n
Stay-AllNeeded {c} {c'} (finished s it h e) v n = written-AllNeeded c c' s it h v e n

-- While no session leaves, the queue holds no message that nobody awaits.
pub Reach-AllNeeded : {c : Chat} → Reach Stay c → AllNeeded c.queue
unfolding deref
Reach-AllNeeded here = λ n m h. cc
Reach-AllNeeded (next r st) = Stay-AllNeeded st (Reach-Stay-Inv r) (Reach-AllNeeded r)

-- So once every write has ended the queue is empty again: each message has been sent to everyone it
-- was meant for, and freed.
pub idle-queue : {c : Chat} → Reach Stay c → AllIdle c.sessions → c.queue ≡ []
idle-queue {c} r idle =
    empty_of (Reach-Stay-Inv r).distinct c.queue (Reach-AllNeeded r) (Reach-Stay-Inv r).counted
  where
    empty_of :
        Distinct c.sessions → (q : List Message) → AllNeeded q → AllCounted q c.sessions → q ≡ []
    empty_of d [] n k = refl
    empty_of d (m ∷ q) n k =
        absurd (
          ground (arith, awaiting_idle m c.sessions d idle, n m.node m, k m.node m, deref_head m q))
