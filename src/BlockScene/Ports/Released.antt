-- ===== src/BlockScene/Ports/Released.antt =====
-- block-scene/src/port.cpp: the release of the mouse makes the connection or deletes it.
use cosec_examples.Prelude.{◌≡◌, ◌≢◌, refl, sym, ◌∙◌, ap, ◌⊎◌, inl, inr, true, false, none, some}
use cosec_examples.BlockScene.Ports.{
  Address, Port, Connection, Scene, put, put_port, finish, stop_creating,
}
use cosec_examples.BlockScene.Ports.Linked.{put_self, put_ne, Linked}
use cosec_examples.BlockScene.Ports.Deleted.{ℕ-cases, delete_connection-Linked}
use cosec_examples.BlockScene.Ports.Dragged.{Dragging}

-- Every input port points back to its connection.
abbrev pub Settled : Scene → Type 0
Settled s =
    (c : Address) (k : Connection) (b : Address) (q : Port)
    → s.connections c ≡ some k
    → k.input ≡ some b
    → s.ports b ≡ some q
    → q.connection ≡ some c

abbrev pub stopped : Port → Port
stopped p = record p { creating_connection = false }

module _ (a : Address) (p : Port) (s : Scene) (l : Linked (some a) s) (h : s.ports a ≡ some p)
    (settled : Settled s) where
  abbrev pub after_stop : Scene
  after_stop = put_port a (some (stopped p)) s

  stopped_or_old :
      (x : Address) (q : Port)
      → after_stop.ports x ≡ some q
      → ((x ≡ a) × (q ≡ stopped p)) ⊎ ((x ≢ a) × (s.ports x ≡ some q))
  unfolding put_port
  stopped_or_old x q hq = elim (ℕ-cases x a) [
    | inl z ↦
        let at = ap (put a (some (stopped p)) s.ports) z ∙ put_self a (some (stopped p)) s.ports in
        inl (z, cc)
    | inr ne ↦ inr (ne, sym (put_ne a x (some (stopped p)) s.ports ne) ∙ hq)
  ]

  -- A port of before, with the same type and connection after.
  after_port :
      (x : Address) (q : Port)
      → s.ports x ≡ some q
      → (r : Port) × (after_stop.ports x ≡ some r)
        × (r.port_type ≡ q.port_type)
        × (r.connection ≡ q.connection)
  unfolding put_port
  after_port x q hq = elim (ℕ-cases x a) [
    | inl z ↦
        let there = ap s.ports z in
        let same : p ≡ q = cc in
        (
          stopped p,
          ap (put a (some (stopped p)) s.ports) z ∙ put_self a (some (stopped p)) s.ports,
          ap (λ r. r.port_type) same,
          ap (λ r. r.connection) same,
        )
    | inr ne ↦ (q, put_ne a x (some (stopped p)) s.ports ne ∙ hq, refl, refl)
  ]

  pub stopped-Linked : Linked none after_stop
  unfolding put_port
  stopped-Linked = record {
    output_linked = λ c k hk.
        let (q, hq, o, hc) = l.output_linked c k hk in
        let (r, hr, er, cr) = after_port k.output q hq in (r, hr, er ∙ o, cr ∙ hc);
    input_linked = λ c k b hk hb.
        let (q, hq, i, _) = l.input_linked c k b hk hb in
        let (r, hr, er, cr) = after_port b q hq in
        (r, hr, er ∙ i, inl (cr ∙ settled c k b q hk hb hq));
    connected = λ x q c hq hc. elim (stopped_or_old x q hq) [
      | inl (z, e) ↦ l.connected x p c (ap s.ports z ∙ h) (sym (ap (λ r. r.connection) e) ∙ hc)
      | inr (ne, hs) ↦ l.connected x q c hs hc
    ];
    creating = λ x q hq hc. elim (stopped_or_old x q hq) [
      | inl (z, e) ↦ absurd (cc (ap (λ r. r.creating_connection) e))
      | inr (ne, hs) ↦ let e = l.creating x q hs hc in absurd (ne (cc))
    ];
    fresh = l.fresh;
    fresh_port = λ x q hq. elim (stopped_or_old x q hq) [
      | inl (z, e) ↦ l.fresh_port x p (ap s.ports z ∙ h)
      | inr (ne, hs) ↦ l.fresh_port x q hs
    ];
  }

  pub stop_creating-run : stop_creating a s ≡ some after_stop
  unfolding stop_creating
  stop_creating-run = rw h refl

-- The connection is gone, and with it the only one of the port.
module _ (a : Address) (p : Port) (c : Address) (s t : Scene) (d : Dragging a p c none s t) where
  pub dropped :
      (w : Scene) × (finish none c t ≡ some w)
      × Linked (some a) w
      × (w.ports a ≡ some (record p { connection = none; creating_connection = true }))
      × Settled w
  unfolding finish
  dropped =
      let k : Connection = record { output = a; input = none } in
      let (w, run, off, lw) =
        delete_connection-Linked (some a) c k t d.linked d.dragged (λ b q e. absurd (cc)) in
      let here = off.at_end a _ d.here (inl refl) in
      (
        w,
        run,
        lw,
        here,
        λ e j b q hj hb hq.
            let (r, hr, _, v) = lw.input_linked e j b hj hb in
            elim v [
              | inl hc ↦ cc
              | inr z ↦
                  let (o, ho, _, co) = lw.output_linked e j hj in
                  let there : a ≡ j.output = cc in
                  let at = ap w.ports there in
                  let same : o ≡ record p { connection = none; creating_connection = true } = cc in
                  absurd (cc (ap (λ r. r.connection) same))
            ],
      )
