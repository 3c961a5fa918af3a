-- ===== src/Chat/Tests.antt =====
-- asio-shared/src/chat.cpp: rooms of three sessions, 1 to 3.
use cosec_examples.Prelude.{
  ◌==◌, if◌then◌else◌, ◌≡◌, refl, Option, none, some, [], ◌∷◌, ◌++◌, String, arith,
}
use cosec_examples.Chat.{
  at_once, later, receive_message, Session, Node, Message, Chat, find, deref, session_created,
  session_destroyed, message_received, written, enqueue, start, assign, after, erase, skip_own,
  decrement, decrement_at, completed, erase_session, leave, release, decrement_from,
}
use cosec_examples.Chat.Entries.{AllIdle}
use cosec_examples.Chat.Invariant.{Inv}
use cosec_examples.Chat.Destroyed.{AllForeign, session_destroyed-Inv, session_destroyed_stale}
use cosec_examples.Chat.Mailbox.{mailbox, mailbox-message_received}
use cosec_examples.Chat.Room.{
  Stay, Reach, created, received, finished, stays, here, next, Reach-Inv, Reach-Stay-Inv,
  idle-queue,
}

abbrev three : Chat
three = record { queue = []; sessions = (3, none) ∷ (2, none) ∷ (1, none) ∷ []; next_node = 0 }

three-Reach : Reach Stay three
unfolding session_created find
three-Reach =
    next (next (next here (created 1 (omega arith))) (created 2 (omega arith)))
      (created 3 (omega arith))

abbrev note : Session → Node → String → Message
note s n text = record { node = n; sender = s; text = text; senders_remaining = 2 }

abbrev talk : Chat
talk = record {
  queue = note 1 0 "a" ∷ note 2 1 "b" ∷ [];
  sessions = (3, some 0) ∷ (2, some 0) ∷ (1, some 1) ∷ [];
  next_node = 2;
}

talk-Reach : Reach Stay talk
unfolding message_received receive_message enqueue start find
talk-Reach =
    next (next three-Reach (received at_once 1 "a" none refl refl))
      (received at_once 2 "b" (some 0) refl refl)

abbrev talk_left : Chat
talk_left = record {
  queue =
      record (note 1 0 "a") { senders_remaining = 1 }
      ∷ record (note 2 1 "b") { senders_remaining = 1 }
      ∷ [];
  sessions = (3, some 0) ∷ (1, some 1) ∷ [];
  next_node = 2;
}

talk_leaves : session_destroyed 2 talk ≡ some talk_left
unfolding session_destroyed leave release erase_session decrement_from decrement deref find
talk_leaves = refl

abbrev ending : Option Chat → Session → Node → Option Chat
ending none s it = none
ending (some c) s it = written s it c

-- The message of session 2 is freed when session 1 has it; session 3 is still to be sent it, and its
-- iterator dangles.
use_after_free : ending (ending (ending (some talk_left) 3 0) 1 1) 3 1 ≡ none
unfolding written completed erase assign skip_own after decrement decrement_at deref find
use_after_free = refl

abbrev position : Option Chat → Session → Option (Option Node)
position none s = none
position (some c) s = find s c.sessions

-- Session 2 has left, and the handler of a write to it that ended before runs: it has an entry again.
registered_again : position (ending (some talk_left) 2 0) 2 ≡ some none
unfolding written completed erase assign skip_own after decrement decrement_at deref find
registered_again = refl

mailbox-message_received_example :
    ((c' : Chat) × (message_received at_once 1 "a" three ≡ some c')
      × ((k : Session) (o : Option Node)
          → find k three.sessions ≡ some o
          → mailbox k c' ≡ (if k == 1 then mailbox k three else mailbox k three ++ "a" ∷ [])))
    × (message_received later 1 "a" three ≡ none)
unfolding find
mailbox-message_received_example =
    mailbox-message_received three 1 "a" none (Reach-Stay-Inv three-Reach) refl (omega arith)
      (omega arith)

Reach-Inv_example : Inv talk
unfolding message_received receive_message enqueue start find session_created
Reach-Inv_example = Reach-Inv (
    next
      (next
        (next (next (next here (stays (created 1 (omega arith)))) (stays (created 2 (omega arith))))
          (stays (created 3 (omega arith))))
        (stays (received at_once 1 "a" none refl refl)))
      (stays (received at_once 2 "b" (some 0) refl refl)))

three-AllIdle : AllIdle three.sessions
unfolding find
three-AllIdle k p e = ground arith

idle-queue_example : three.queue ≡ []
idle-queue_example = idle-queue three-Reach three-AllIdle

talk-AllForeign : AllForeign 3 0 talk.queue
unfolding deref
talk-AllForeign n m d le e = ground arith

session_destroyed-Inv_example : (c' : Chat) × (session_destroyed 3 talk ≡ some c') × Inv c'
unfolding find
session_destroyed-Inv_example =
    session_destroyed-Inv talk 3 (some 0) refl talk-AllForeign (Reach-Stay-Inv talk-Reach)

-- Session 1 is slow: session 2 has been sent the first message, session 3 the second.
abbrev slow : Chat
slow = record {
  queue =
      record (note 3 0 "a") { senders_remaining = 1 }
      ∷ record (note 1 1 "b") { senders_remaining = 1 }
      ∷ [];
  sessions = (3, none) ∷ (2, some 1) ∷ (1, some 0) ∷ [];
  next_node = 2;
}

slow-Reach : Reach Stay slow
unfolding message_received receive_message enqueue start find written completed erase assign
    skip_own after decrement decrement_at deref
slow-Reach =
    next
      (next
        (next (next three-Reach (received at_once 3 "a" none refl refl))
          (received at_once 1 "b" (some 0) refl refl))
        (finished 2 0 refl refl))
      (finished 3 1 refl refl)

abbrev slow_left : Chat
slow_left = record {
  queue =
      record (note 3 0 "a") { senders_remaining = 1 }
      ∷ record (note 1 1 "b") { senders_remaining = 0 }
      ∷ [];
  sessions = (3, none) ∷ (1, some 0) ∷ [];
  next_node = 2;
}

session_destroyed_stale_example :
    (y : Message) × (deref 1 slow_left.queue ≡ some y) × (y.senders_remaining ≡ 0)
unfolding find deref session_destroyed leave release erase_session decrement_from decrement
session_destroyed_stale_example =
    session_destroyed_stale slow slow_left 2 1 1 (record (note 1 1 "b") { senders_remaining = 1 })
      (Reach-Stay-Inv slow-Reach) refl refl refl (omega arith) refl refl
