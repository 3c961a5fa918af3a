-- ===== src/BlockScene/Ports/Removed.antt =====
-- block-scene/src: ports are deleted, with their connections.
use cosec_examples.Prelude.{◌≡◌, ◌≢◌, refl, sym, ◌∙◌, ap, inl, inr, none, some, Option-cases}
use cosec_examples.BlockScene.Ports.{
  Address, Port, Connection, Scene, put, put_port, delete_connection, delete_held, delete_port,
}
use cosec_examples.BlockScene.Ports.Linked.{clear, put_self, put_ne, IsEnd, Linked, Detached}
use cosec_examples.BlockScene.Ports.Deleted.{delete_connection-Linked, IsEnd-cases, ℕ-cases}

-- Everything but one port stays alive, and what is gone stays gone.
pub record Keeps (a : Address) (s t : Scene) : Type 0 where
  pub alive :
      (x : Address) (p : Port)
      → s.ports x ≡ some p
      → x ≢ a
      → (q : Port) × (t.ports x ≡ some q) × (q.port_type ≡ p.port_type)
  pub gone : (x : Address) → s.ports x ≡ none → t.ports x ≡ none
  pub here : t.ports a ≡ none
  pub old_connection :
      (c : Address) (k : Connection) → t.connections c ≡ some k → s.connections c ≡ some k
  pub kept_connection :
      (c : Address) (k : Connection)
      → s.connections c ≡ some k
      → k.output ≢ a
      → k.input ≢ some a
      → t.connections c ≡ some k

module _ (a : Address) (p : Port) (s : Scene) (l : Linked none s) (h : s.ports a ≡ some p)
    (free : p.connection ≡ none) where
  ne_of_connected : (x c : Address) (q : Port) → s.ports x ≡ some q → q.connection ≡ some c → x ≢ a
  ne_of_connected x c q hq hc z =
      let there = ap s.ports z in let same : q ≡ p = cc in absurd (cc (ap (λ r. r.connection) same))

  remaining :
      (x : Address) (q : Port) → put a none s.ports x ≡ some q → (x ≢ a) × (s.ports x ≡ some q)
  remaining x q hq =
      let ne : x ≢ a =
        λ z. let at = ap (put a none s.ports) z ∙ put_self a none s.ports in absurd (cc) in
      (ne, sym (put_ne a x none s.ports ne) ∙ hq)

  removed-Linked : Linked none (put_port a none s)
  unfolding put_port
  removed-Linked = record {
    output_linked = λ c k hk.
        let (q, hq, o, hc) = l.output_linked c k hk in
        (q, put_ne a k.output none s.ports (ne_of_connected k.output c q hq hc) ∙ hq, o, hc);
    input_linked = λ c k b hk hb.
        let (q, hq, i, w) = l.input_linked c k b hk hb in
        elim w [
          | inl hc ↦ (q, put_ne a b none s.ports (ne_of_connected b c q hq hc) ∙ hq, i, inl hc)
          | inr e ↦ absurd (cc)
        ];
    connected = λ x q c hq hc. let (ne, hs) = remaining x q hq in l.connected x q c hs hc;
    creating = λ x q hq hc. let (ne, hs) = remaining x q hq in l.creating x q hs hc;
    fresh = l.fresh;
    fresh_port = λ x q hq. let (ne, hs) = remaining x q hq in l.fresh_port x q hs;
  }

  removed-Keeps : Keeps a s (put_port a none s)
  unfolding put_port
  removed-Keeps = record {
    alive = λ x q hq ne. (q, put_ne a x none s.ports ne ∙ hq, refl);
    gone = λ x hx. elim (ℕ-cases x a) [
      | inl z ↦ ap (put a none s.ports) z ∙ put_self a none s.ports
      | inr ne ↦ put_ne a x none s.ports ne ∙ hx
    ];
    here = put_self a none s.ports;
    old_connection = λ c k hk. hk;
    kept_connection = λ c k hk out ni. hk;
  }

  delete_port-free : delete_port a s ≡ some (put_port a none s)
  unfolding delete_port delete_held
  delete_port-free = rw (h, free) refl

module _ (a c : Address) (p : Port) (s : Scene) (l : Linked none s) (h : s.ports a ≡ some p)
    (held : p.connection ≡ some c) where
  attached :
      (k : Connection)
      → s.connections c ≡ some k
      → (b : Address) (q : Port) → k.input ≡ some b
      → s.ports b ≡ some q
      → q.connection ≡ some c
  attached k hk b q hb hq =
      let (r, hr, _, w) = l.input_linked c k b hk hb in elim w [ inl hc ↦ cc | inr e ↦ absurd (cc) ]

  delete_port-run :
      (t : Scene) → delete_connection c s ≡ some t → delete_port a s ≡ some (put_port a none t)
  unfolding delete_port delete_held
  delete_port-run t e = rw (h, held, e) refl

  Detached-Keeps :
      (k : Connection) (t : Scene)
      → s.connections c ≡ some k
      → IsEnd k a
      → Detached c k s t
      → Keeps a t (put_port a none t)
      → Keeps a s (put_port a none t)
  Detached-Keeps k t hk end d kept = record {
    alive = λ x q hq ne. elim (IsEnd-cases k x) [
      | inl z ↦ kept.alive x (clear q) (d.at_end x q hq z) ne
      | inr (out, ni) ↦ kept.alive x q (d.elsewhere x out ni ∙ hq) ne
    ];
    gone = λ x hx. kept.gone x (
        d.elsewhere x
          (λ z.
            let (q, hq, _, _) = l.output_linked c k hk in let there = ap s.ports z in absurd (cc))
          (λ z. let (q, hq, _, _) = l.input_linked c k x hk z in absurd (cc))
        ∙ hx);
    here = kept.here;
    old_connection = λ e j hj.
        let at = kept.old_connection e j hj in
        elim (ℕ-cases e c) [
          | inl z ↦
              let off =
                ap (λ f. f e) d.gone
                ∙ ap (put c none s.connections) z
                ∙ put_self c none s.connections in
              absurd (cc)
          | inr ne ↦ sym (ap (λ f. f e) d.gone ∙ put_ne c e none s.connections ne) ∙ at
        ];
    kept_connection = λ e j hj out ni.
        let ne : e ≢ c = λ z.
          let same : j ≡ k = cc (ap s.connections z) in
          elim end [
            | inl o ↦ out (ap (λ r. r.output) same ∙ o)
            | inr i ↦ ni (ap (λ r. r.input) same ∙ i)
          ] in
        kept.kept_connection e j (ap (λ f. f e) d.gone ∙ put_ne c e none s.connections ne ∙ hj) out
          ni;
  }

pub delete_port-Linked :
    (a : Address) (p : Port) (s : Scene)
    → Linked none s
    → s.ports a ≡ some p
    → (t : Scene) × (delete_port a s ≡ some t) × Linked none t × Keeps a s t
delete_port-Linked a p s l h = elim (Option-cases p.connection) [
  | inl e ↦ (
    put_port a none s,
    delete_port-free a p s l h e,
    removed-Linked a p s l h e,
    removed-Keeps a p s l h e,
  )
  | inr (c, e) ↦
      let (k, hk, z) = l.connected a p c h e in
      let (t, run, d, lt) =
        delete_connection-Linked none c k s l hk (attached a c p s l h e k hk) in
      let now = d.at_end a p h z in
      (
        put_port a none t,
        delete_port-run a c p s l h e t run,
        removed-Linked a (clear p) t lt now refl,
        Detached-Keeps a c p s l h e k t hk z d (removed-Keeps a (clear p) t lt now refl),
      )
]
