-- ===== src/BlockScene/Ports.antt =====
-- block-scene/src/port.cpp, connection.cpp, block.cpp: who points to whom. Objects have addresses; a
-- step that follows a null or dangling pointer has no result. Positions and painting are left out.
pub mod Linked
pub mod Deleted
pub mod Removed
pub mod Ios
pub mod Resized
pub mod Dragged
pub mod Moved
pub mod Released
pub mod Joined
pub mod Gesture
mod Tests
use cosec_examples.Prelude.{
  ℕ, zero, suc, ◌+◌, ◌-◌, Bool, true, false, not, ◌&&◌, Option, none, some, List, [], ◌∷◌, ◌++◌,
  ◌==◌, ltb, if◌then◌else◌, length, take, drop,
}

abbrev pub Address : Type 0
Address = ℕ

infixl 5 ◌>>=◌
abbrev pub ◌>>=◌ : {A B : Type 0} → Option A → (A → Option B) → Option B
none >>= f = none
some a >>= f = f a

pub data PortType : Type 0 where
  input_type output_type : PortType

pub record Port : Type 0 where
  pub port_type : PortType
  pub connection : Option Address
  pub creating_connection : Bool

pub record Connection : Type 0 where
  pub output : Address
  pub input : Option Address

-- The objects that are alive, and the addresses that the next ones get.
pub record Scene : Type 0 where
  pub ports : Address → Option Port
  pub connections : Address → Option Connection
  pub next_port : Address
  pub next_connection : Address

unfoldable pub put : {A : Type 0} → Address → A → (Address → A) → Address → A
put a v f x = if x == a then v else f x

unfoldable pub put_port : Address → Option Port → Scene → Scene
put_port a p s = record s { ports = put a p s.ports }

unfoldable pub put_connection : Address → Option Connection → Scene → Scene
put_connection c k s = record s { connections = put c k s.connections }

abbrev pub is_output : PortType → Bool
is_output input_type = false
is_output output_type = true

abbrev pub is_null : Option Address → Bool
is_null none = true
is_null (some a) = false

-- Port::disconnect
unfoldable pub disconnect : Address → Scene → Option Scene
disconnect a s = do p ← s.ports a; some (put_port a (some (record p { connection = none })) s)

-- if(input_) input_->disconnect();
unfoldable pub disconnect_input : Option Address → Scene → Option Scene
disconnect_input none s = some s
disconnect_input (some a) s = disconnect a s

-- Connection::~Connection
unfoldable pub delete_connection : Address → Scene → Option Scene
delete_connection c s = do
  k ← s.connections c
  t ← disconnect k.output s
  u ← disconnect_input k.input t
  some (put_connection c none u)

-- delete connection_; of a null pointer does nothing.
unfoldable pub delete_held : Option Address → Scene → Option Scene
delete_held none s = some s
delete_held (some c) s = delete_connection c s

-- Port::~Port
unfoldable pub delete_port : Address → Scene → Option Scene
delete_port a s = do p ← s.ports a; t ← delete_held p.connection s; some (put_port a none t)

-- Port::mousePressEvent
unfoldable pub mouse_press : Address → Bool → Scene → Option Scene
mouse_press a left_button s = do
  p ← s.ports a
  let c = s.next_connection
  some (
      if is_output p.port_type && is_null p.connection && left_button
      then record s {
        ports = put a (some (record p { connection = some c; creating_connection = true })) s.ports;
        connections = put c (some (record { output = a; input = none })) s.connections;
        next_connection = suc c;
      }
      else s)

-- The port at the position, when it is an input.
unfoldable pub target : Option Address → Scene → Option (Option Address)
target none s = some none
target (some a) s = do p ← s.ports a; some (if is_output p.port_type then none else some a)

unfoldable pub alive : Option Address → Scene → Option Scene
alive none s = some s
alive (some a) s = do p ← s.ports a; some s

-- Connection::updatePos reads its ports.
unfoldable pub update_pos : Address → Scene → Option Scene
update_pos c s = do k ← s.connections c; t ← alive (some k.output) s; alive k.input s

-- Both overloads of Connection::setEnd.
unfoldable pub set_end : Option Address → Address → Scene → Option Scene
set_end end c s = do
  k ← s.connections c
  update_pos c (put_connection c (some (record k { input = end })) s)

-- Port::mouseMoveEvent; `over` is the port that itemAt finds.
unfoldable pub mouse_move : Address → Option Address → Scene → Option Scene
mouse_move a over s = do
  p ← s.ports a
  if not p.creating_connection
      then some s
      else do end ← target over s; c ← p.connection; set_end end c s

-- connection_->input()->connection_ = connection_; or delete connection_;
unfoldable pub finish : Option Address → Address → Scene → Option Scene
finish none c s = delete_connection c s
finish (some b) c s = do
  q ← s.ports b
  some (put_port b (some (record q { connection = some c })) s)

unfoldable pub stop_creating : Address → Scene → Option Scene
stop_creating a s = do
  p ← s.ports a
  some (put_port a (some (record p { creating_connection = false })) s)

-- Port::mouseReleaseEvent
unfoldable pub mouse_release : Address → Scene → Option Scene
mouse_release a s = do
  p ← s.ports a
  if not p.creating_connection
      then some s
      else do c ← p.connection; k ← s.connections c; t ← finish k.input c s; stop_creating a t

unfoldable pub delete_ports : List Address → Scene → Option Scene
delete_ports [] s = some s
delete_ports (a ∷ rest) s = delete_port a s >>= delete_ports rest

-- Block::setIOs, new Port{*this,portType}, a number of times.
unfoldable pub new_ports : PortType → ℕ → Scene → List Address × Scene
new_ports type zero s = ([], s)
new_ports type (suc n) s =
    let (added, t) = new_ports type n (record s {
      ports =
          put s.next_port
            (some (record { port_type = type; connection = none; creating_connection = false }))
            s.ports;
      next_port = suc s.next_port;
    }) in
    (s.next_port ∷ added, t)

-- Block::setIOs, of the ports of one type.
unfoldable pub set_ios : ℕ → PortType → List Address → Scene → Option (List Address × Scene)
set_ios n type v s =
    let (added, t) = new_ports type (n - length v) s in
    if n == length v
    then some (v, s)
    else if ltb n (length v)
    then (delete_ports (drop n v) s >>= λ u. some (take n v, u))
    else some (v ++ added, t)

-- The mouse moves of a gesture and its release.
unfoldable pub drag : Address → List (Option Address) → Scene → Option Scene
drag a [] s = mouse_release a s
drag a (over ∷ rest) s = mouse_move a over s >>= drag a rest
