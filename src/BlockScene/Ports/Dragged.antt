-- ===== src/BlockScene/Ports/Dragged.antt =====
-- block-scene/src/port.cpp: a connection is dragged from an output port.
use cosec_examples.Prelude.{
  suc, ◌≡◌, ◌≢◌, refl, sym, ◌∙◌, ap, ◌⊎◌, inl, inr, true, Option, none, some, arith,
}
use cosec_examples.BlockScene.Ports.{
  Address, output_type, Port, Connection, Scene, put, mouse_press,
}
use cosec_examples.BlockScene.Ports.Linked.{put_self, put_ne, Linked}
use cosec_examples.BlockScene.Ports.Deleted.{ℕ-cases}

-- What is true while the connection `c` with the end `end` is dragged from the port `a`, which was `p`.
pub record Dragging (a : Address) (p : Port) (c : Address) (end : Option Address) (s t : Scene)
    : Type 0 where
  pub linked : Linked (some a) t
  pub here : t.ports a ≡ some (record p { connection = some c; creating_connection = true })
  pub elsewhere : (x : Address) → x ≢ a → t.ports x ≡ s.ports x
  pub dragged : t.connections c ≡ some (record { output = a; input = end })
  pub alone : (x : Address) (q : Port) → t.ports x ≡ some q → q.connection ≡ some c → x ≡ a

abbrev pub ends : Connection → Address → Option Address → Connection
ends k a end = record { output = a; input = end }

module _ (a : Address) (p : Port) (s : Scene) (l : Linked none s) (h : s.ports a ≡ some p)
    (is_out : p.port_type ≡ output_type) (free : p.connection ≡ none) where
  abbrev pressed : Port
  pressed = record p { connection = some s.next_connection; creating_connection = true }

  abbrev after_press : Scene
  after_press = record s {
    ports = put a (some pressed) s.ports;
    connections = put s.next_connection (some (record { output = a; input = none })) s.connections;
    next_connection = suc s.next_connection;
  }

  old_ne : (c : Address) (k : Connection) → s.connections c ≡ some k → c ≢ s.next_connection
  old_ne c k hk z = absurd (omega (arith, l.fresh c k hk, z))

  -- A port of the scene after the press is the pressed one or an old one.
  pressed_or_old :
      (x : Address) (q : Port)
      → after_press.ports x ≡ some q
      → ((x ≡ a) × (q ≡ pressed)) ⊎ ((x ≢ a) × (s.ports x ≡ some q))
  pressed_or_old x q hq = elim (ℕ-cases x a) [
    | inl z ↦
        let at = ap (put a (some pressed) s.ports) z ∙ put_self a (some pressed) s.ports in
        inl (z, cc)
    | inr ne ↦ inr (ne, sym (put_ne a x (some pressed) s.ports ne) ∙ hq)
  ]

  new_or_old :
      (c : Address) (k : Connection)
      → after_press.connections c ≡ some k
      → ((c ≡ s.next_connection) × (k ≡ record { output = a; input = none }))
        ⊎ (s.connections c ≡ some k)
  new_or_old c k hk = elim (ℕ-cases c s.next_connection) [
    | inl z ↦
        let v : Connection = record { output = a; input = none } in
        let at =
          ap (put s.next_connection (some v) s.connections) z
          ∙ put_self s.next_connection (some v) s.connections in
        inl (z, cc)
    | inr ne ↦ inr (sym (put_ne s.next_connection c _ s.connections ne) ∙ hk)
  ]

  old_connection :
      (c : Address) (k : Connection) → s.connections c ≡ some k → after_press.connections c ≡ some k
  old_connection c k hk = put_ne s.next_connection c _ s.connections (old_ne c k hk) ∙ hk

  connected_ne : (x c : Address) (q : Port) → s.ports x ≡ some q → q.connection ≡ some c → x ≢ a
  connected_ne x c q hq hc z =
      let there = ap s.ports z in let same : q ≡ p = cc in absurd (cc (ap (λ r. r.connection) same))

  pressed-Linked : Linked (some a) after_press
  pressed-Linked = record {
    output_linked = λ c k hk. elim (new_or_old c k hk) [
      | inl (z, e) ↦ (
        pressed,
        ap after_press.ports (ap (λ r. r.output) e) ∙ put_self a (some pressed) s.ports,
        is_out,
        ap some (sym z),
      )
      | inr hs ↦
          let (q, hq, o, hc) = l.output_linked c k hs in
          (
            q,
            put_ne a k.output (some pressed) s.ports (connected_ne k.output c q hq hc) ∙ hq,
            o,
            hc,
          )
    ];
    input_linked = λ c k b hk hb. elim (new_or_old c k hk) [
      | inl (z, e) ↦ absurd (cc (ap (λ r. r.input) e))
      | inr hs ↦
          let (q, hq, i, w) = l.input_linked c k b hs hb in
          elim w [
            | inl hc ↦
                (q, put_ne a b (some pressed) s.ports (connected_ne b c q hq hc) ∙ hq, i, inl hc)
            | inr e ↦ absurd (cc)
          ]
    ];
    connected = λ x q c hq hc. elim (pressed_or_old x q hq) [
      | inl (z, e) ↦
          let new : c ≡ s.next_connection = cc (ap (λ r. r.connection) e) in
          (
            record { output = a; input = none },
            ap after_press.connections new ∙ put_self s.next_connection _ s.connections,
            inl (sym z),
          )
      | inr (ne, hs) ↦ let (k, hk, w) = l.connected x q c hs hc in (k, old_connection c k hk, w)
    ];
    creating = λ x q hq hc. elim (pressed_or_old x q hq) [
      | inl (z, e) ↦ ap some (sym z)
      | inr (ne, hs) ↦ let e = l.creating x q hs hc in absurd (cc)
    ];
    fresh = λ c k hk. elim (new_or_old c k hk) [
      | inl (z, e) ↦ omega (arith, z)
      | inr hs ↦ omega (arith, l.fresh c k hs)
    ];
    fresh_port = λ x q hq. elim (pressed_or_old x q hq) [
      | inl (z, e) ↦ omega (arith, z, l.fresh_port a p h)
      | inr (ne, hs) ↦ l.fresh_port x q hs
    ];
  }

  pub mouse_press-Dragging :
      (t : Scene) × (mouse_press a true s ≡ some t) × Dragging a p s.next_connection none s t
  unfolding mouse_press
  mouse_press-Dragging = (
    after_press,
    rw (h, is_out, free) refl,
    record {
      linked = pressed-Linked;
      here = put_self a (some pressed) s.ports;
      elsewhere = λ x ne. put_ne a x (some pressed) s.ports ne;
      dragged = put_self s.next_connection _ s.connections;
      alone = λ x q hq hc. elim (pressed_or_old x q hq) [
        | inl (z, e) ↦ z
        | inr (ne, hs) ↦
            let (k, hk, w) = l.connected x q s.next_connection hs hc in
            absurd (old_ne s.next_connection k hk refl)
      ];
    },
  )
