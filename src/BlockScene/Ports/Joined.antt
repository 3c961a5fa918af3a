-- ===== src/BlockScene/Ports/Joined.antt =====
-- block-scene/src/port.cpp: the release of the mouse over a free input port.
use cosec_examples.Prelude.{◌≡◌, ◌≢◌, refl, sym, ◌∙◌, ap, ◌⊎◌, inl, inr, true, none, some}
use cosec_examples.BlockScene.Ports.{
  Address, input_type, output_type, Port, Connection, Scene, put, put_port, finish,
}
use cosec_examples.BlockScene.Ports.Linked.{put_self, put_ne, Linked}
use cosec_examples.BlockScene.Ports.Deleted.{ℕ-cases}
use cosec_examples.BlockScene.Ports.Dragged.{Dragging}
use cosec_examples.BlockScene.Ports.Released.{Settled}

-- The input port points back to the connection.
module _ (a : Address) (p : Port) (c b : Address) (q : Port) (s t : Scene)
    (d : Dragging a p c (some b) s t) (is_out : p.port_type ≡ output_type) (hq : t.ports b ≡ some q)
    (free : q.connection ≡ none) where
  abbrev pub joined : Port
  joined = record q { connection = some c }

  abbrev pub after_join : Scene
  after_join = put_port b (some joined) t

  not_joined : (x e : Address) (r : Port) → t.ports x ≡ some r → r.connection ≡ some e → x ≢ b
  not_joined x e r hr hc z =
      let there = ap t.ports z in let same : r ≡ q = cc in absurd (cc (ap (λ y. y.connection) same))

  kept_port :
      (x e : Address) (r : Port)
      → t.ports x ≡ some r
      → r.connection ≡ some e
      → after_join.ports x ≡ some r
  unfolding put_port
  kept_port x e r hr hc = put_ne b x (some joined) t.ports (not_joined x e r hr hc) ∙ hr

  joined_or_old :
      (x : Address) (r : Port)
      → after_join.ports x ≡ some r
      → ((x ≡ b) × (r ≡ joined)) ⊎ ((x ≢ b) × (t.ports x ≡ some r))
  unfolding put_port
  joined_or_old x r hr = elim (ℕ-cases x b) [
    | inl z ↦
        let at = ap (put b (some joined) t.ports) z ∙ put_self b (some joined) t.ports in
        inl (z, cc)
    | inr ne ↦ inr (ne, sym (put_ne b x (some joined) t.ports ne) ∙ hr)
  ]

  input_type_of : q.port_type ≡ input_type
  input_type_of =
      let (r, hr, i, _) = d.linked.input_linked c _ b d.dragged refl in
      let same : r ≡ q = cc in ap (λ y. y.port_type) (sym same) ∙ i

  -- The connection that is dragged from the port is this one.
  dragged_only : (e : Address) (j : Connection) → t.connections e ≡ some j → a ≡ j.output → e ≡ c
  dragged_only e j hj z =
      let (r, hr, _, hc) = d.linked.output_linked e j hj in
      let at = ap t.ports z ∙ hr in
      let same : record p { connection = some c; creating_connection = true } ≡ r = cc (d.here) in
      cc (ap (λ y. y.connection) same)

  joined_input :
      (e y : Address) (j : Connection)
      → t.connections e ≡ some j
      → j.input ≡ some y
      → (r : Port) × (after_join.ports y ≡ some r)
        × (r.port_type ≡ input_type)
        × (r.connection ≡ some e)
  unfolding put_port
  joined_input e y j hj hy =
      let (r, hr, i, w) = d.linked.input_linked e j y hj hy in
      elim w [
        | inl hc ↦ (r, kept_port y e r hr hc, i, hc)
        | inr z ↦
            let there : a ≡ j.output = cc in
            let this = dragged_only e j hj there in
            let dragged = ap t.connections this ∙ d.dragged in
            let same : j ≡ record { output = a; input = some b } = cc in
            let at : y ≡ b = cc (ap (λ k. k.input) same) in
            (
              joined,
              ap (put b (some joined) t.ports) at ∙ put_self b (some joined) t.ports,
              input_type_of,
              ap some (sym this),
            )
      ]

  pub joined-Linked : Linked (some a) after_join
  unfolding put_port
  joined-Linked = record {
    output_linked = λ e j hj.
        let (r, hr, o, hc) = d.linked.output_linked e j hj in
        (r, kept_port j.output e r hr hc, o, hc);
    input_linked =
        λ e j y hj hy. let (r, hr, i, hc) = joined_input e y j hj hy in (r, hr, i, inl hc);
    connected = λ x r e hr hc. elim (joined_or_old x r hr) [
      | inl (z, w) ↦
          let this : c ≡ e = cc (ap (λ y. y.connection) w) in
          (
            record { output = a; input = some b },
            ap t.connections (sym this) ∙ d.dragged,
            inr (ap some (sym z)),
          )
      | inr (ne, hs) ↦ d.linked.connected x r e hs hc
    ];
    creating = λ x r hr hc. elim (joined_or_old x r hr) [
      | inl (z, w) ↦
          d.linked.creating x q (ap t.ports z ∙ hq) (sym (ap (λ y. y.creating_connection) w) ∙ hc)
      | inr (ne, hs) ↦ d.linked.creating x r hs hc
    ];
    fresh = d.linked.fresh;
    fresh_port = λ x r hr. elim (joined_or_old x r hr) [
      | inl (z, w) ↦ d.linked.fresh_port x q (ap t.ports z ∙ hq)
      | inr (ne, hs) ↦ d.linked.fresh_port x r hs
    ];
  }

  pub joined-Settled : Settled after_join
  unfolding put_port
  joined-Settled e j y r hj hy hr =
      let (o, ho, _, hc) = joined_input e y j hj hy in
      let same : o ≡ r = cc in ap (λ z. z.connection) (sym same) ∙ hc

  pub finish-run : finish (some b) c t ≡ some after_join
  unfolding finish
  finish-run = rw hq refl

  pub a_ne_b : a ≢ b
  a_ne_b = not_joined a c _ d.here refl
