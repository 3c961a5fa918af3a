-- ===== src/BlockScene/Ports/Moved.antt =====
-- block-scene/src/port.cpp: the end of a dragged connection follows the mouse.
use cosec_examples.Prelude.{
  ◌<◌, ◌≡◌, ◌≢◌, refl, sym, ◌∙◌, ap, subst, ◌⊎◌, inl, inr, true, Option, none, some, Option-cases,
}
use cosec_examples.BlockScene.Ports.{
  Address, input_type, output_type, Port, Connection, Scene, put, put_connection, mouse_move,
  set_end, update_pos, alive, target,
}
use cosec_examples.BlockScene.Ports.Linked.{put_self, put_ne, Linked}
use cosec_examples.BlockScene.Ports.Deleted.{ℕ-cases}
use cosec_examples.BlockScene.Ports.Dragged.{Dragging}

-- The input port that is under the mouse, in a scene.
pub data Under (s : Scene) : Option Address → Option Address → Type 0 where
  nothing : Under s none none
  an_output :
      {b : Address} {q : Port}
      → s.ports b ≡ some q
      → q.port_type ≡ output_type
      → Under s (some b) none
  an_input :
      {b : Address} {q : Port}
      → s.ports b ≡ some q
      → q.port_type ≡ input_type
      → Under s (some b) (some b)

module _ (a : Address) (p : Port) (c : Address) (end : Option Address) (s t : Scene)
    (d : Dragging a p c end s t) (is_out : p.port_type ≡ output_type) where
  abbrev dragged_port : Port
  dragged_port = record p { connection = some c; creating_connection = true }

  -- A port that is alive at the press has the same type during the drag.
  same_type :
      (b : Address) (q : Port)
      → s.ports a ≡ some p
      → s.ports b ≡ some q
      → (r : Port) × (t.ports b ≡ some r) × (r.port_type ≡ q.port_type)
  same_type b q h hq = elim (ℕ-cases b a) [
    | inl z ↦
        let there = ap s.ports z in
        let same : q ≡ p = cc in
        (dragged_port, ap t.ports z ∙ d.here, ap (λ r. r.port_type) (sym same))
    | inr ne ↦ (q, d.elsewhere b ne ∙ hq, refl)
  ]

  module _ (new : Option Address)
      (ok : (b : Address)
        → new ≡ some b
        → (q : Port) × (t.ports b ≡ some q) × (q.port_type ≡ input_type)) where
    abbrev moved_to : Connection
    moved_to = record { output = a; input = new }

    abbrev after_move : Scene
    after_move = put_connection c (some moved_to) t

    moved_or_old :
        (e : Address) (j : Connection)
        → after_move.connections e ≡ some j
        → ((e ≡ c) × (j ≡ moved_to)) ⊎ ((e ≢ c) × (t.connections e ≡ some j))
    unfolding put_connection
    moved_or_old e j hj = elim (ℕ-cases e c) [
      | inl z ↦
          let at =
            ap (put c (some moved_to) t.connections) z ∙ put_self c (some moved_to) t.connections in
          inl (z, cc)
      | inr ne ↦ inr (ne, sym (put_ne c e (some moved_to) t.connections ne) ∙ hj)
    ]

    moved-Linked : Linked (some a) after_move
    unfolding put_connection
    moved-Linked = record {
      output_linked = λ e j hj. elim (moved_or_old e j hj) [
        | inl (z, w) ↦
            (dragged_port, ap t.ports (ap (λ r. r.output) w) ∙ d.here, is_out, ap some (sym z))
        | inr (ne, hs) ↦ d.linked.output_linked e j hs
      ];
      input_linked = λ e j b hj hb. elim (moved_or_old e j hj) [
        | inl (z, w) ↦
            let (q, hq, i) = ok b (sym (ap (λ r. r.input) w) ∙ hb) in
            (q, hq, i, inr (ap some (sym (ap (λ r. r.output) w))))
        | inr (ne, hs) ↦ d.linked.input_linked e j b hs hb
      ];
      connected = λ x q e hq hc. elim (ℕ-cases e c) [
        | inl z ↦ (
          moved_to,
          ap after_move.connections z ∙ put_self c (some moved_to) t.connections,
          inl (sym (d.alone x q hq (hc ∙ ap some z))),
        )
        | inr ne ↦
            let (k, hk, w) = d.linked.connected x q e hq hc in
            (k, put_ne c e (some moved_to) t.connections ne ∙ hk, w)
      ];
      creating = d.linked.creating;
      fresh = λ e j hj. elim (moved_or_old e j hj) [
        | inl (z, w) ↦ subst (λ n. n < t.next_connection) (sym z) (d.linked.fresh c _ d.dragged)
        | inr (ne, hs) ↦ d.linked.fresh e j hs
      ];
      fresh_port = d.linked.fresh_port;
    }

    moved-Dragging : Dragging a p c new s after_move
    unfolding put_connection
    moved-Dragging = record {
      linked = moved-Linked;
      here = d.here;
      elsewhere = d.elsewhere;
      dragged = put_self c (some moved_to) t.connections;
      alone = d.alone;
    }

    set_end-run : set_end new c t ≡ some after_move
    unfolding set_end update_pos alive put_connection
    set_end-run = elim (Option-cases new) [
      | inl e ↦ rw (d.dragged, put_self c (some moved_to) t.connections, d.here, e) refl
      | inr (b, e) ↦
          let (q, hq, _) = ok b e in
          rw (d.dragged, put_self c (some moved_to) t.connections, d.here, e, hq) refl
    ]

    mouse_move-run :
        (over : Option Address) → target over t ≡ some new → mouse_move a over t ≡ some after_move
    unfolding mouse_move
    mouse_move-run over e = rw (d.here, e) set_end-run

  pub mouse_move-Dragging :
      (over new : Option Address)
      → s.ports a ≡ some p
      → Under s over new
      → (u : Scene) × (mouse_move a over t ≡ some u) × Dragging a p c new s u
  unfolding target
  mouse_move-Dragging _ _ h nothing = (
    after_move none (λ b e. absurd (cc)),
    mouse_move-run none (λ b e. absurd (cc)) none refl,
    moved-Dragging none (λ b e. absurd (cc)),
  )
  mouse_move-Dragging _ _ h (an_output {b} {q} hq o) =
      let (r, hr, e) = same_type b q h hq in
      (
        after_move none (λ b e. absurd (cc)),
        mouse_move-run none (λ b e. absurd (cc)) (some b) (rw (hr, e ∙ o) refl),
        moved-Dragging none (λ b e. absurd (cc)),
      )
  mouse_move-Dragging _ _ h (an_input {b} {q} hq i) =
      let (r, hr, e) = same_type b q h hq in
      let ok : (y : Address)
          → some b ≡ some y
          → (z : Port) × (t.ports y ≡ some z) × (z.port_type ≡ input_type) =
        λ y w. let z : b ≡ y = cc in (r, sym (ap t.ports z) ∙ hr, e ∙ i) in
      (
        after_move (some b) ok,
        mouse_move-run (some b) ok (some b) (rw (hr, e ∙ i) refl),
        moved-Dragging (some b) ok,
      )
