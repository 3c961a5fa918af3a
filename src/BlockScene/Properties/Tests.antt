-- ===== src/BlockScene/Properties/Tests.antt =====
-- The properties of a new block: its two inputs have the addresses 0 and 1, its outputs 2 and 3.
use cosec_examples.Prelude.{ℕ, ◌<◌, ◌≡◌, refl, false, none, some, [], ◌∷◌, arith}
use cosec_examples.BlockScene.Ports.{PortType, input_type, output_type, Port, Scene, put, new_ports}
use cosec_examples.BlockScene.Ports.Linked.{Linked}
use cosec_examples.BlockScene.Ports.Ios.{nowhere, not_here, Live, no_port, port}
use cosec_examples.BlockScene.Ports.Resized.{new_ports-Added}
use cosec_examples.BlockScene.Properties.{
  ℤ, pos, Variant, Block, edit_role, set_data, set_row, checked, port_number,
}
use cosec_examples.BlockScene.Properties.Kept.{Sound, Done, set_data-Done}

abbrev nothing_there : Scene
nothing_there = record {
  ports = λ a. none;
  connections = λ c. none;
  next_port = 0;
  next_connection = 0;
}

nothing_there-Linked : Linked none nothing_there
nothing_there-Linked = record {
  output_linked = λ c k h. absurd (cc);
  input_linked = λ c k b h e. absurd (cc);
  connected = λ a p c h e. absurd (cc);
  creating = λ a p h e. absurd (cc);
  fresh = λ c k h. absurd (cc);
  fresh_port = λ a p h. absurd (cc);
}

abbrev inputs_made : Scene
inputs_made = (new_ports input_type 2 nothing_there).1

abbrev scene : Scene
scene = (new_ports output_type 2 inputs_made).1

abbrev new_block : Block
new_block = record { name = []; inputs = 0 ∷ 1 ∷ []; outputs = 2 ∷ 3 ∷ [] }

port-Live :
    (s : Scene) (t : PortType) (a b : ℕ) (p q : Port)
    → s.ports a ≡ some p
    → s.ports b ≡ some q
    → p.port_type ≡ t
    → q.port_type ≡ t
    → a < b
    → Live s t (a ∷ b ∷ [])
port-Live s t a b p q hp hq ep eq lt =
    port hp ep (not_here (λ e. absurd (omega (arith, lt, e))) nowhere) (port hq eq nowhere no_port)

new_block-Sound : Sound new_block scene
unfolding new_ports put
new_block-Sound =
    let made = new_ports-Added input_type 2 nothing_there nothing_there-Linked in
    record {
      linked = (new_ports-Added output_type 2 inputs_made made.linked).linked;
      inputs_live = port-Live scene input_type 0 1 _ _ refl refl refl refl (omega arith);
      outputs_live = port-Live scene output_type 2 3 _ _ refl refl refl refl (omega arith);
      few_inputs = omega arith;
      few_outputs = omega arith;
    }

-- A variant that is an int.
abbrev ints : Variant ℤ
ints = record { to_string = λ n. []; to_int = λ n. some n }

set_data-Done_example :
    Done new_block scene
      (set_data ints (some (record { row = 1; column = 1 })) (pos 1) edit_role new_block scene)
set_data-Done_example =
    set_data-Done new_block scene new_block-Sound ints (some (record { row = 1; column = 1 }))
      (pos 1) edit_role

too_many :
    set_data ints (some (record { row = 1; column = 1 })) (pos 17) edit_role new_block scene
    ≡ some (false, new_block, scene)
unfolding set_data set_row checked port_number
too_many = refl
