-- ===== src/BlockScene/Properties/Kept.antt =====
-- block-scene/src/blockpropertiesmodel.cpp: setData keeps the block and the scene sound.
use cosec_examples.Prelude.{
  ℕ, ◌≤◌, ◌≡◌, ◌≢◌, refl, sym, ◌∙◌, ap, inl, inr, Bool, true, false, not, ◌||◌, Option, none, some,
  List, [], ◌∷◌, ◌==◌, if◌then◌else◌, length, arith, Option-cases,
}
use cosec_examples.BlockScene.Ports.{Address, PortType, input_type, output_type, Port, Scene}
use cosec_examples.BlockScene.Ports.Linked.{Linked}
use cosec_examples.BlockScene.Ports.Ios.{NotIn, nowhere, not_here, Live, no_port, port}
use cosec_examples.BlockScene.Ports.Resized.{NotIn-drop, Resized, set_ios-Resized}
use cosec_examples.BlockScene.Properties.{
  max_ports, ℤ, pos, negsuc, Variant, Block, Role, Index, is_edit, Set, port_number, checked,
  set_inputs, set_outputs, set_row, set_data,
}

-- The scene's pointers agree, and the block's ports are alive, different, of their type and no more than 16 of each.
pub record Sound (b : Block) (s : Scene) : Type 0 where
  pub linked : Linked none s
  pub inputs_live : Live s input_type b.inputs
  pub outputs_live : Live s output_type b.outputs
  pub few_inputs : length b.inputs ≤ max_ports
  pub few_outputs : length b.outputs ≤ max_ports

other_type :
    (s : Scene) (t u : PortType) (x : Address) (q : Port) (v : List Address)
    → t ≢ u
    → s.ports x ≡ some q
    → q.port_type ≡ t
    → Live s u v
    → NotIn x v
other_type s t u x q [] ne h e no_port = nowhere
other_type s t u x q (a ∷ rest) ne h e (port {p} hp ep m l) =
    let apart : x ≢ a = λ z.
      let there = ap s.ports z in
      let same : q ≡ p = cc in ne (sym e ∙ ap (λ r. r.port_type) same ∙ ep) in
    not_here apart (other_type s t u x q rest ne h e l)

-- Ports of the other type stay alive.
Live-others :
    (s : Scene) (n : ℕ) (t u : PortType) (v w : List Address) (r : List Address × Scene)
    → t ≢ u
    → Live s u v
    → Resized n u v s r
    → Live s t w
    → Live r.1 t w
Live-others s n t u v [] r ne lv z no_port = no_port
Live-others s n t u v (a ∷ rest) r ne lv z (port {p} hp ep m l) =
    let (q, hq, eq) = z.others a p hp (NotIn-drop a n v (other_type s t u a p v ne hp ep lv)) in
    port hq (eq ∙ ep) m (Live-others s n t u v rest r ne lv z l)

port_number-le : (o : Option ℤ) (n : ℕ) → port_number o ≡ some n → n ≤ max_ports
unfolding port_number
port_number-le none n h = absurd (cc)
port_number-le (some (negsuc k)) n h = absurd (cc)
port_number-le (some (pos k)) n h = ground (arith, h)

-- What setData comes to: what it refuses, it leaves as it was.
pub record Done (b : Block) (s : Scene) (o : Option Set) : Type 0 where
  pub accepted : Bool
  pub block : Block
  pub scene : Scene
  pub run : o ≡ some (accepted, block, scene)
  pub sound : Sound block scene
  pub refused : accepted ≡ false → (block ≡ b) × (scene ≡ s)

module _ (b : Block) (s : Scene) (ok : Sound b s) where
  refuses : Done b s (some (false, b, s))
  refuses = record {
    accepted = false;
    block = b;
    scene = s;
    run = refl;
    sound = ok;
    refused = λ _. (refl, refl);
  }

  set_inputs-Done : (n : ℕ) → n ≤ max_ports → Done b s (set_inputs n b s)
  unfolding set_inputs
  set_inputs-Done n le =
      let (r, run, z) = set_ios-Resized n input_type b.inputs s ok.linked ok.inputs_live in
      record {
        accepted = true;
        block = record b { inputs = r.0 };
        scene = r.1;
        run = rw run refl;
        sound = record {
          linked = z.linked;
          inputs_live = z.live;
          outputs_live =
              Live-others s n output_type input_type b.inputs b.outputs r (λ e. absurd (cc))
                ok.inputs_live z ok.outputs_live;
          few_inputs = omega (arith, le, z.count);
          few_outputs = ok.few_outputs;
        };
        refused = λ e. absurd (cc);
      }

  set_outputs-Done : (n : ℕ) → n ≤ max_ports → Done b s (set_outputs n b s)
  unfolding set_outputs
  set_outputs-Done n le =
      let (r, run, z) = set_ios-Resized n output_type b.outputs s ok.linked ok.outputs_live in
      record {
        accepted = true;
        block = record b { outputs = r.0 };
        scene = r.1;
        run = rw run refl;
        sound = record {
          linked = z.linked;
          inputs_live =
              Live-others s n input_type output_type b.outputs b.inputs r (λ e. absurd (cc))
                ok.outputs_live z ok.inputs_live;
          outputs_live = z.live;
          few_inputs = ok.few_inputs;
          few_outputs = omega (arith, le, z.count);
        };
        refused = λ e. absurd (cc);
      }

  checked-Done :
      (o : Option ℤ) (f : ℕ → Option Set)
      → ((n : ℕ) → n ≤ max_ports → Done b s (f n))
      → Done b s (checked (port_number o) f b s)
  unfolding checked
  checked-Done o f g = elim (Option-cases (port_number o)) [
    | inl e ↦ rw e refuses
    | inr (n, e) ↦ rw e (g n (port_number-le o n e))
  ]

  if-Done : (t : Bool) (x y : Option Set) → Done b s x → Done b s y → Done b s (if t then x else y)
  if-Done true x y dx dy = dx
  if-Done false x y dx dy = dy

  module _ {V : Type 0} (variant : Variant V) where
    set_row-Done : (row : ℕ) (value : V) → Done b s (set_row variant row value b s)
    unfolding set_row
    set_row-Done row value =
        let o = variant.to_int value in
        let named = record b { name = variant.to_string value } in
        if-Done (row == 0) _ _
          (record {
            accepted = true;
            block = named;
            scene = s;
            run = refl;
            sound = record {
              linked = ok.linked;
              inputs_live = ok.inputs_live;
              outputs_live = ok.outputs_live;
              few_inputs = ok.few_inputs;
              few_outputs = ok.few_outputs;
            };
            refused = λ e. absurd (cc);
          })
          (if-Done (row == 1) _ _ (checked-Done o _ set_inputs-Done)
            (if-Done (row == 2) _ _ (checked-Done o _ set_outputs-Done) refuses))

    -- For a sound block and scene, setData has a result for every index, value and role, after which they
    -- are sound; and where it returns false, nothing has changed.
    pub set_data-Done :
        (i : Option Index) (value : V) (role : Role) → Done b s (set_data variant i value role b s)
    unfolding set_data
    set_data-Done none value role = refuses
    set_data-Done (some i) value role =
        if-Done (not (i.column == 1) || not (is_edit role)) _ _ refuses (set_row-Done i.row value)
