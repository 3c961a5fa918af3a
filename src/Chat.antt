-- ===== src/Chat.antt =====
-- asio-shared/src/chat.hpp, chat.cpp: the chat room that every session shares. The lambdas of its members
-- run on one strand, so a run is a sequence of whole lambdas.
mod Entries
mod Queue
mod Release
pub mod Invariant
pub mod Received
pub mod Written
pub mod Destroyed
pub mod Mailbox
pub mod Room
mod Tests
use cosec_examples.Prelude.{
  ℕ, suc, ◌+◌, ◌-◌, ◌%◌, ◌^◌, Bool, false, ◌&&◌, Option, none, some, List, [], ◌∷◌, ◌++◌, String,
  map, ltb, ◌==◌, if◌then◌else◌, length,
}

-- The address of a chat_session, and of a node of the std::list, that is, an iterator.
abbrev pub Session : Type 0
Session = ℕ

abbrev pub Node : Type 0
Node = ℕ

pub record Message : Type 0 where
  pub node : Node
  pub sender : Session
  pub text : String
  pub senders_remaining : ℕ

-- An entry of `sessions_`: `none` is the iterator queue_t::iterator{}.
abbrev pub Entry : Type 0
Entry = Session × Option Node

-- Nodes are numbered as they are allocated.
pub record Chat : Type 0 where
  pub queue : List Message
  pub sessions : List Entry
  pub next_node : Node

abbrev pub max_queue : ℕ
max_queue = 100

abbrev pub size_mod : ℕ
size_mod = 2 ^ 64

pub find : Session → List Entry → Option (Option Node)
find s [] = none
find s ((k, pos) ∷ es) = if k == s then some pos else find s es

-- `sessions_[&session] = pos`
pub assign : Session → Option Node → List Entry → List Entry
assign s pos [] = (s, pos) ∷ []
assign s pos ((k, old) ∷ es) = if k == s then (k, pos) ∷ es else (k, old) ∷ assign s pos es

pub erase_session : Session → List Entry → List Entry
erase_session s [] = []
erase_session s ((k, pos) ∷ es) = if k == s then es else (k, pos) ∷ erase_session s es

-- `*it`; `none` where the iterator dangles.
pub deref : Node → List Message → Option Message
deref n [] = none
deref n (m ∷ q) = if m.node == n then some m else deref n q

-- `--m.senders_remaining_`, of type std::size_t.
pub decrement : Message → Message
decrement m = record m { senders_remaining = (m.senders_remaining + (size_mod - 1)) % size_mod }

pub decrement_at : Node → List Message → List Message
decrement_at n [] = []
decrement_at n (m ∷ q) = if m.node == n then decrement m ∷ q else m ∷ decrement_at n q

pub erase : Node → List Message → List Message
erase n [] = []
erase n (m ∷ q) = if m.node == n then q else m ∷ erase n q

-- The elements behind the iterator `n`.
pub after : Node → List Message → List Message
after n [] = []
after n (m ∷ q) = if m.node == n then q else after n q

-- do ++next; while(next!=queue_.end()&&next->sender_==&session);
pub skip_own : Session → List Message → Option Node
skip_own s [] = none
skip_own s (m ∷ q) = if m.sender == s then skip_own s q else some m.node

abbrev pub register : Session → Option (Option Node) → List Entry → List Entry
register s none es = (s, none) ∷ es
register s (some pos) es = es

-- `sessions_[&session];`
pub session_created : Session → Chat → Chat
session_created s c = record c { sessions = register s (find s c.sessions) c.sessions }

abbrev is_front : Node → List Message → Bool
is_front n [] = false
is_front n (m ∷ q) = m.node == n

-- std::find_if(…,end,[](const message& m){ return m.senders_remaining_>1; }) and the erasure of
-- what stands before.
pub drop_awaited : List Message → List Message
drop_awaited [] = []
drop_awaited (m ∷ q) = if ltb 1 m.senders_remaining then m ∷ q else drop_awaited q

-- for(;pos!=end;++pos) --pos->senders_remaining_;
pub decrement_from : Node → List Message → List Message
decrement_from n [] = []
decrement_from n (m ∷ q) = if m.node == n then map decrement (m ∷ q) else m ∷ decrement_from n q

pub release : Node → Message → List Message → List Message
release pos m q =
    if is_front pos q && m.senders_remaining == 1
    then map decrement (drop_awaited (after pos q))
    else decrement_from pos q

pub leave : Option Node → Chat → Option Chat
leave none c = some c
leave (some pos) c = elim (deref pos c.queue) [
  | none ↦ none
  | some m ↦ some (record c { queue = release pos m c.queue })
]

-- The lambda, which needs the session's address only: the destructor does not wait for it. `none` is
-- undefined behaviour: an iterator that dangles, or the end of a container, is followed.
pub session_destroyed : Session → Chat → Option Chat
session_destroyed s c = elim (find s c.sessions) [
  | none ↦ none
  | some pos ↦ leave pos (record c { sessions = erase_session s c.sessions })
]

-- The loop over `sessions_`: `send` assigns the entry at which the loop stands.
pub start : Session → Node → List Entry → List Entry
start s it [] = []
start s it ((k, none) ∷ es) = (k, (if k == s then none else some it)) ∷ start s it es
start s it ((k, some pos) ∷ es) = (k, some pos) ∷ start s it es

abbrev pub new_message : Session → String → Chat → Message
new_message s text c = record {
  node = c.next_node;
  sender = s;
  text = text;
  senders_remaining = (length c.sessions + (size_mod - 1)) % size_mod;
}

pub enqueue : Session → String → Chat → Chat
enqueue s text c = record {
  queue = c.queue ++ new_message s text c ∷ [];
  sessions = start s c.next_node c.sessions;
  next_node = suc c.next_node;
}

-- The lambda of message_received, while `text` is alive.
pub receive_message : Session → String → Chat → Chat
receive_message s text c =
    if length c.sessions == 1
    then c
    else if length c.queue == max_queue
    then c
    else enqueue s text c

-- When the strand runs the lambda: within the call of execute, or after message_received has returned.
pub data Execution : Type 0 where
  at_once later : Execution

-- The lambda captures the parameter `text` by reference: later, the reference dangles.
pub message_received : Execution → Session → String → Chat → Option Chat
message_received at_once s text c = some (receive_message s text c)
message_received later s text c =
    if length c.sessions == 1 then some c else if length c.queue == max_queue then some c else none

abbrev pub erase_if_done : ℕ → Node → List Message → List Message
erase_if_done rem it q = if rem == 0 then erase it q else q

pub completed : Session → Node → Message → Chat → Chat
completed s it m c = record c {
  queue = erase_if_done (decrement m).senders_remaining it (decrement_at it c.queue);
  sessions = assign s (skip_own s (after it (decrement_at it c.queue))) c.sessions;
}

-- The handler of a finished write, which `send` gives to async_write: `s` has been sent the message
-- at `it`. The write that is under way for a session is that of the message at its position.
pub written : Session → Node → Chat → Option Chat
written s it c = elim (deref it c.queue) [ none ↦ none | some m ↦ some (completed s it m c) ]
