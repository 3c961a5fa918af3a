-- ===== src/BlockScene/Ports/Deleted.antt =====
-- block-scene/src: the pointers still agree when a connection is gone.
use cosec_examples.Prelude.{
  ℕ, ◌<◌, ◌≡◌, ◌≢◌, refl, sym, ◌∙◌, ap, subst, ◌⊎◌, inl, inr, Option, none, some, Option-cases,
  arith,
}
use cosec_examples.BlockScene.Ports.{Address, Port, Connection, Scene, put, delete_connection}
use cosec_examples.BlockScene.Ports.Linked.{
  clear, put_self, put_ne, IsEnd, Linked, Detached, delete_connection-alone, delete_connection-both,
}

pub ℕ-cases : (a b : ℕ) → (a ≡ b) ⊎ (a ≢ b)
ℕ-cases a b = ground arith

pub IsEnd-cases : (k : Connection) (x : Address) → IsEnd k x ⊎ ((k.output ≢ x) × (k.input ≢ some x))
IsEnd-cases k x = elim (ℕ-cases k.output x) [
  | inl e ↦ inl (inl e)
  | inr out ↦ elim (Option-cases k.input) [
    | inl e ↦ inr (out, λ q. absurd (cc))
    | inr (b, e) ↦ elim (ℕ-cases b x) [
      | inl z ↦ inl (inr (e ∙ ap some z))
      | inr nz ↦ inr (out, λ q. nz (cc))
    ]
  ]
]

module _ (held : Option Address) (c : Address) (k : Connection) (s t : Scene) (l : Linked held s)
    (h : s.connections c ≡ some k) (d : Detached c k s t)
    (attached : (b : Address) (q : Port)
      → k.input ≡ some b
      → s.ports b ≡ some q
      → q.connection ≡ some c) where
  kept_connection :
      (e : Address) (j : Connection)
      → t.connections e ≡ some j
      → (e ≢ c) × (s.connections e ≡ some j)
  kept_connection e j hj =
      let step = ap (λ f. f e) (sym d.gone) ∙ hj in
      let ne : e ≢ c = λ z.
        let none_at = ap (put c none s.connections) z ∙ put_self c none s.connections in
        absurd (cc) in
      (ne, sym (put_ne c e none s.connections ne) ∙ step)

  -- A port of another connection is no end of this one.
  not_end :
      (x : Address) (p : Port) (e : Address)
      → s.ports x ≡ some p
      → p.connection ≡ some e
      → e ≢ c
      → (k.output ≢ x) × (k.input ≢ some x)
  not_end x p e hp hc ne =
      let (o, ho, _, co) = l.output_linked c k h in
      (
        λ z. let there = ap s.ports z in let same : o ≡ p = cc in absurd (ne (cc)),
        λ z. let at = attached x p z hp in absurd (ne (cc)),
      )

  end_port : (x : Address) → IsEnd k x → (p : Port) × (s.ports x ≡ some p)
  end_port x (inl e) = let (p, hp, _, _) = l.output_linked c k h in (p, sym (ap s.ports e) ∙ hp)
  end_port x (inr e) = let (p, hp, _, _) = l.input_linked c k x h e in (p, hp)

  -- What a port is like before, seen from after.
  before :
      (x : Address) (q : Port)
      → t.ports x ≡ some q
      → (p : Port) × (s.ports x ≡ some p)
        × (((q ≡ clear p) × IsEnd k x) ⊎ ((q ≡ p) × (k.output ≢ x) × (k.input ≢ some x)))
  before x q hq = elim (IsEnd-cases k x) [
    | inl e ↦ let (p, hp) = end_port x e in let now = d.at_end x p hp e in (p, hp, inl (cc, e))
    | inr (out, ni) ↦ (q, sym (d.elsewhere x out ni) ∙ hq, inr (refl, out, ni))
  ]

  pub Detached-Linked : Linked held t
  Detached-Linked = record {
    output_linked = λ e j hj.
        let (ne, hs) = kept_connection e j hj in
        let (p, hp, o, hc) = l.output_linked e j hs in
        let (out, ni) = not_end j.output p e hp hc ne in
        (p, d.elsewhere j.output out ni ∙ hp, o, hc);
    input_linked = λ e j b hj hb.
        let (ne, hs) = kept_connection e j hj in
        let (p, hp, i, w) = l.input_linked e j b hs hb in
        elim w [
          | inl hc ↦
              let (out, ni) = not_end b p e hp hc ne in (p, d.elsewhere b out ni ∙ hp, i, inl hc)
          | inr hd ↦ elim (IsEnd-cases k b) [
            | inl z ↦ (clear p, d.at_end b p hp z, i, inr hd)
            | inr (out, ni) ↦ (p, d.elsewhere b out ni ∙ hp, i, inr hd)
          ]
        ];
    connected = λ x q e hq hc.
        let (p, hp, w) = before x q hq in
        elim w [
          | inl (z, _) ↦ let nothing = ap (λ r. r.connection) z in absurd (cc)
          | inr (z, out, ni) ↦
              let (j, hj, w) = l.connected x p e hp (sym (ap (λ r. r.connection) z) ∙ hc) in
              let ne : e ≢ c = λ y.
                let same : j ≡ k = cc (ap s.connections y) in
                elim w [
                  | inl o ↦ out (sym (ap (λ r. r.output) same) ∙ o)
                  | inr i ↦ ni (sym (ap (λ r. r.input) same) ∙ i)
                ] in
              (j, ap (λ f. f e) d.gone ∙ put_ne c e none s.connections ne ∙ hj, w)
        ];
    creating = λ x q hq hc.
        let (p, hp, w) = before x q hq in
        elim w [
          | inl (z, _) ↦ l.creating x p hp (sym (ap (λ r. r.creating_connection) z) ∙ hc)
          | inr (z, _, _) ↦ l.creating x p hp (sym (ap (λ r. r.creating_connection) z) ∙ hc)
        ];
    fresh = λ e j hj.
        let (ne, hs) = kept_connection e j hj in subst (λ n. e < n) (sym d.next) (l.fresh e j hs);
    fresh_port = λ x q hq.
        let (p, hp, w) = before x q hq in
        subst (λ n. x < n) (sym d.next_port) (l.fresh_port x p hp);
  }

-- A connection whose input port points back to it can be deleted.
pub delete_connection-Linked :
    (held : Option Address) (c : Address) (k : Connection) (s : Scene)
    → Linked held s
    → s.connections c ≡ some k
    → ((b : Address) (q : Port) → k.input ≡ some b → s.ports b ≡ some q → q.connection ≡ some c)
    → (t : Scene) × (delete_connection c s ≡ some t) × Detached c k s t × Linked held t
delete_connection-Linked held c k s l h attached =
    let (p, hp, o, _) = l.output_linked c k h in
    elim (Option-cases k.input) [
      | inl e ↦
          let (t, run, d) = delete_connection-alone s c k h p hp e in
          (t, run, d, Detached-Linked held c k s t l h d attached)
      | inr (b, e) ↦
          let (q, hq, i, _) = l.input_linked c k b h e in
          let ne : k.output ≢ b = λ z.
            let there = ap s.ports z in
            let same : p ≡ q = cc in let types = ap (λ r. r.port_type) same in absurd (cc) in
          let (t, run, d) = delete_connection-both s c k h p hp b q e hq ne in
          (t, run, d, Detached-Linked held c k s t l h d attached)
    ]
