-- ===== src/Chat/Entries.antt =====
-- asio-shared/src/chat.cpp: what the operations do to `sessions_`.
use cosec_examples.Prelude.{
  ℕ, ◌+◌, ◌≤◌, ◌<◌, ◌≡◌, ◌≢◌, refl, Bool, true, false, not, ◌&&◌, Option, none, some, List, [], ◌∷◌,
  leb, ◌==◌, if◌then◌else◌, length, arith,
}
use cosec_examples.Chat.{
  Session, Node, Message, Entry, find, assign, erase_session, start, register, decrement,
}

-- No session has two entries.
abbrev pub Distinct : List Entry → Type 0
Distinct [] = Unit {0}
Distinct ((k, pos) ∷ es) = (find k es ≡ none) × Distinct es

-- The session is still to be sent the message: it has reached no message behind it.
abbrev pub awaits : Message → Session → Option Node → Bool
awaits m k none = false
awaits m k (some p) = leb p m.node && not (k == m.sender)

abbrev pub count_if : Bool → ℕ
count_if b = if b then 1 else 0

pub awaiting : Message → List Entry → ℕ
awaiting m [] = 0
awaiting m ((k, pos) ∷ es) = count_if (awaits m k pos) + awaiting m es

pub awaiting-le : (m : Message) (es : List Entry) → awaiting m es ≤ length es
unfolding awaiting
awaiting-le m [] = omega arith
awaiting-le m ((k, none) ∷ es) = omega (arith, awaiting-le m es)
awaiting-le m ((k, some p) ∷ es) = ground (arith, awaiting-le m es)

pub find-assign :
    (k s : Session) (pos : Option Node) (es : List Entry)
    → find k (assign s pos es) ≡ (if s == k then some pos else find k es)
unfolding find assign
find-assign k s pos [] = refl
find-assign k s pos ((j, old) ∷ es) = ground (arith, find-assign k s pos es)

pub find-erase_session :
    (k s : Session) (es : List Entry)
    → Distinct es
    → find k (erase_session s es) ≡ (if s == k then none else find k es)
unfolding find erase_session
find-erase_session k s [] d = ground arith
find-erase_session k s ((j, pos) ∷ es) d = ground (arith, find-erase_session k s es d.1)

abbrev pub started : Session → Node → Session → Option Node → Option Node
started s it k none = if k == s then none else some it
started s it k (some p) = some p

abbrev pub started_at : Session → Node → Session → Option (Option Node) → Option (Option Node)
started_at s it k none = none
started_at s it k (some pos) = some (started s it k pos)

pub find-start :
    (k s : Session) (it : Node) (es : List Entry)
    → find k (start s it es) ≡ started_at s it k (find k es)
unfolding find start
find-start k s it [] = refl
find-start k s it ((j, none) ∷ es) = ground (arith, find-start k s it es)
find-start k s it ((j, some p) ∷ es) = ground (arith, find-start k s it es)

pub length-assign :
    (s : Session) (pos old : Option Node) (es : List Entry)
    → find s es ≡ some old
    → length (assign s pos es) ≡ length es
unfolding find assign
length-assign s pos old [] h = cc
length-assign s pos old ((j, o) ∷ es) h = ground (arith, length-assign s pos old es)

pub length-erase_session : (s : Session) (es : List Entry) → length (erase_session s es) ≤ length es
unfolding erase_session
length-erase_session s [] = omega arith
length-erase_session s ((j, o) ∷ es) = ground (arith, length-erase_session s es)

pub length-start : (s : Session) (it : Node) (es : List Entry) → length (start s it es) ≡ length es
unfolding start
length-start s it [] = refl
length-start s it ((j, none) ∷ es) = omega (arith, length-start s it es)
length-start s it ((j, some p) ∷ es) = omega (arith, length-start s it es)

pub assign-Distinct :
    (s : Session) (pos : Option Node) (es : List Entry) → Distinct es → Distinct (assign s pos es)
unfolding find assign
assign-Distinct s pos [] d = (refl, tt)
assign-Distinct s pos ((j, o) ∷ es) d =
    ground (arith, assign-Distinct s pos es d.1, find-assign j s pos es)

pub erase_session-Distinct :
    (s : Session) (es : List Entry) → Distinct es → Distinct (erase_session s es)
unfolding erase_session
erase_session-Distinct s [] d = tt
erase_session-Distinct s ((j, o) ∷ es) d =
    ground (arith, erase_session-Distinct s es d.1, find-erase_session j s es d.1)

pub start-Distinct :
    (s : Session) (it : Node) (es : List Entry) → Distinct es → Distinct (start s it es)
unfolding start
start-Distinct s it [] d = tt
start-Distinct s it ((j, none) ∷ es) d =
    ground (arith, start-Distinct s it es d.1, find-start j s it es)
start-Distinct s it ((j, some p) ∷ es) d =
    ground (arith, start-Distinct s it es d.1, find-start j s it es)

-- A session that awaits a message is among those counted.
pub awaiting_pos :
    (m : Message) (k : Session) (pos : Option Node) (es : List Entry)
    → find k es ≡ some pos
    → awaits m k pos ≡ true
    → 0 < awaiting m es
unfolding find awaiting
awaiting_pos m k pos [] h a = cc
awaiting_pos m k pos ((j, o) ∷ es) h a = ground (arith, awaiting_pos m k pos es)

pub awaiting-assign :
    (m : Message) (s : Session) (pos old : Option Node) (es : List Entry)
    → find s es ≡ some old
    → awaiting m (assign s pos es) + count_if (awaits m s old)
      ≡ awaiting m es + count_if (awaits m s pos)
unfolding find awaiting assign
awaiting-assign m s pos old [] h = cc
awaiting-assign m s pos old ((j, o) ∷ es) h = ground (arith, awaiting-assign m s pos old es)

pub awaiting-erase_session :
    (m : Message) (s : Session) (old : Option Node) (es : List Entry)
    → find s es ≡ some old
    → awaiting m (erase_session s es) + count_if (awaits m s old) ≡ awaiting m es
unfolding find awaiting erase_session
awaiting-erase_session m s old [] h = cc
awaiting-erase_session m s old ((j, o) ∷ es) h = ground (arith, awaiting-erase_session m s old es)

-- A write that starts at a later message changes nothing for the messages before it.
pub awaiting-start :
    (m : Message) (s : Session) (it : Node) (es : List Entry)
    → m.node < it
    → awaiting m (start s it es) ≡ awaiting m es
unfolding awaiting start
awaiting-start m s it [] h = refl
awaiting-start m s it ((j, none) ∷ es) h = ground (arith, awaiting-start m s it es h)
awaiting-start m s it ((j, some p) ∷ es) h = ground (arith, awaiting-start m s it es h)

-- No session has come past the node.
abbrev pub AllReach : Node → List Entry → Type 0
AllReach n es = (k : Session) (p : Node) → find k es ≡ some (some p) → p ≤ n

AllReach-tail :
    (n : Node) (j : Session) (o : Option Node) (es : List Entry)
    → Distinct ((j, o) ∷ es)
    → AllReach n ((j, o) ∷ es)
    → AllReach n es
unfolding find
AllReach-tail n j o es d r k p h = ground (arith, r k p)

abbrev is_registered : Option (Option Node) → ℕ
is_registered none = 0
is_registered (some pos) = 1

-- A message that is put behind all others is awaited by every session but its sender.
pub awaiting-start_new :
    (m : Message) (es : List Entry)
    → Distinct es
    → AllReach m.node es
    → awaiting m (start m.sender m.node es) + is_registered (find m.sender es) ≡ length es
unfolding find awaiting start
awaiting-start_new m [] d r = refl
awaiting-start_new m ((j, none) ∷ es) d r =
    ground (arith, awaiting-start_new m es d.1 (AllReach-tail m.node j none es d r))
awaiting-start_new m ((j, some p) ∷ es) d r =
    ground (arith, awaiting-start_new m es d.1 (AllReach-tail m.node j (some p) es d r), r j p)

pub awaiting-register :
    (m : Message) (s : Session) (es : List Entry)
    → awaiting m (register s (find s es) es) ≡ awaiting m es
unfolding awaiting find
awaiting-register m s es = ground arith

-- The count of a message plays no part in who awaits it.
pub awaiting-decrement : (m : Message) (es : List Entry) → awaiting (decrement m) es ≡ awaiting m es
unfolding awaiting decrement
awaiting-decrement m [] = refl
awaiting-decrement m ((k, none) ∷ es) = omega (arith, awaiting-decrement m es)
awaiting-decrement m ((k, some p) ∷ es) = ground (arith, awaiting-decrement m es)

-- No write is under way.
abbrev pub AllIdle : List Entry → Type 0
AllIdle es = (k : Session) (p : Node) → find k es ≢ some (some p)

AllIdle-tail :
    (j : Session) (o : Option Node) (es : List Entry)
    → Distinct ((j, o) ∷ es)
    → AllIdle ((j, o) ∷ es)
    → AllIdle es
unfolding find
AllIdle-tail j o es d h k p e = h k p (ground arith)

pub awaiting_idle : (m : Message) (es : List Entry) → Distinct es → AllIdle es → awaiting m es ≡ 0
unfolding find awaiting
awaiting_idle m [] d h = refl
awaiting_idle m ((j, none) ∷ es) d h =
    omega (arith, awaiting_idle m es d.1 (AllIdle-tail j none es d h))
awaiting_idle m ((j, some p) ∷ es) d h = absurd (h j p (ground arith))
