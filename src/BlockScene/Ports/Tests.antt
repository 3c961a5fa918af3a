-- ===== src/BlockScene/Ports/Tests.antt =====
-- A block with two inputs, of addresses 0 and 1, and two outputs, 2 and 3.
use cosec_examples.Prelude.{
  ◌≡◌, refl, sym, ◌∙◌, ap, Bool, true, false, Option, none, some, List, [], ◌∷◌, arith,
}
use cosec_examples.BlockScene.Ports.{
  Address, PortType, input_type, output_type, Port, Scene, put, put_port, put_connection,
  disconnect, disconnect_input, delete_connection, delete_held, delete_port, new_ports, set_ios,
  mouse_press, mouse_move, mouse_release, target, alive, update_pos, set_end, finish, stop_creating,
  drag, ◌>>=◌,
}
use cosec_examples.BlockScene.Ports.Linked.{Linked}
use cosec_examples.BlockScene.Ports.Ios.{nowhere, not_here, no_port, port}
use cosec_examples.BlockScene.Ports.Resized.{new_ports-Added, Resized, set_ios-Resized}
use cosec_examples.BlockScene.Ports.Moved.{nothing, an_input}
use cosec_examples.BlockScene.Ports.Gesture.{still, moved, Ends, mouse_press-drag}

abbrev empty : Scene
empty = record { ports = λ a. none; connections = λ c. none; next_port = 0; next_connection = 0 }

empty-Linked : Linked none empty
empty-Linked = record {
  output_linked = λ c k h. absurd (cc);
  input_linked = λ c k b h e. absurd (cc);
  connected = λ a p c h e. absurd (cc);
  creating = λ a p h e. absurd (cc);
  fresh = λ c k h. absurd (cc);
  fresh_port = λ a p h. absurd (cc);
}

abbrev inputs : Scene
inputs = (new_ports input_type 2 empty).1

abbrev block : Scene
block = (new_ports output_type 2 inputs).1

block-Linked : Linked none block
block-Linked =
    let a = new_ports-Added input_type 2 empty empty-Linked in
    (new_ports-Added output_type 2 inputs a.linked).linked

abbrev blank : PortType → Port
blank type = record { port_type = type; connection = none; creating_connection = false }

input_0 : block.ports 0 ≡ some (blank input_type)
unfolding new_ports put
input_0 = refl

output_2 : block.ports 2 ≡ some (blank output_type)
unfolding new_ports put
output_2 = refl

output_3 : block.ports 3 ≡ some (blank output_type)
unfolding new_ports put
output_3 = refl

set_ios-Resized_example :
    (r : List Address × Scene) × (set_ios 1 output_type (2 ∷ 3 ∷ []) block ≡ some r)
    × Resized 1 output_type (2 ∷ 3 ∷ []) block r
set_ios-Resized_example = set_ios-Resized 1 output_type (2 ∷ 3 ∷ []) block block-Linked (
    port output_2 refl (not_here (λ e. absurd (omega (arith, e))) nowhere)
      (port output_3 refl nowhere no_port))

mouse_press-drag_example :
    (w : Scene) × ((mouse_press 2 true block >>= drag 2 (none ∷ some 0 ∷ [])) ≡ some w)
    × Linked none w
    × Ends 2 block.next_connection (some 0) w
mouse_press-drag_example =
    mouse_press-drag 2 (blank output_type) block output_2 refl (none ∷ some 0 ∷ []) (some 0)
      block-Linked refl (moved nothing (moved (an_input input_0 refl) still))
      (λ b e.
        let z : 0 ≡ b = cc in
        (
          λ q. absurd (omega (arith, z, q)),
          (blank input_type, sym (ap block.ports z) ∙ input_0, refl),
        ))

-- Two connections to one input port: when the first is deleted, and then the port, the second has a
-- dangling pointer.
abbrev twice_connected : Option Scene
twice_connected = do
  s ← mouse_press 2 true block
  t ← drag 2 (some 0 ∷ []) s
  u ← mouse_press 3 true t
  drag 3 (some 0 ∷ []) u

abbrev is_some : Option Scene → Bool
is_some none = false
is_some (some s) = true

port_deleted : is_some (twice_connected >>= delete_connection 0 >>= delete_port 0) ≡ true
unfolding new_ports put put_port put_connection disconnect disconnect_input delete_connection
    delete_held delete_port mouse_press mouse_move mouse_release target alive update_pos set_end
    finish stop_creating drag
port_deleted = refl

dangling :
    (twice_connected >>= delete_connection 0 >>= delete_port 0 >>= delete_connection 1) ≡ none
unfolding new_ports put put_port put_connection disconnect disconnect_input delete_connection
    delete_held delete_port mouse_press mouse_move mouse_release target alive update_pos set_end
    finish stop_creating drag
dangling = refl
