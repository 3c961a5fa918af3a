-- ===== src/BlockScene/Ports/Ios.antt =====
-- block-scene/src/block.cpp: Block::setIOs keeps the scene's pointers in order.
use cosec_examples.Prelude.{
  ℕ, zero, suc, get_elem?, ◌≡◌, ◌≢◌, refl, sym, ◌∙◌, ap, none, some, List, [], ◌∷◌,
}
use cosec_examples.BlockScene.Ports.{
  Address, PortType, Port, Connection, Scene, delete_ports, ◌>>=◌,
}
use cosec_examples.BlockScene.Ports.Linked.{Linked}
use cosec_examples.BlockScene.Ports.Removed.{Keeps, delete_port-Linked}

pub data NotIn (a : Address) : List Address → Type 0 where
  nowhere : NotIn a []
  not_here : {b : Address} {rest : List Address} → a ≢ b → NotIn a rest → NotIn a (b ∷ rest)

-- Different ports of one type, all alive.
pub data Live (s : Scene) (type : PortType) : List Address → Type 0 where
  no_port : Live s type []
  port :
      {a : Address} {rest : List Address} {p : Port}
      → s.ports a ≡ some p
      → p.port_type ≡ type
      → NotIn a rest
      → Live s type rest
      → Live s type (a ∷ rest)

-- What a deletion of ports leaves of the others.
pub record Leaves (gone : List Address) (s t : Scene) : Type 0 where
  pub alive :
      (x : Address) (p : Port)
      → s.ports x ≡ some p
      → NotIn x gone
      → (q : Port) × (t.ports x ≡ some q) × (q.port_type ≡ p.port_type)
  pub stays_gone : (x : Address) → s.ports x ≡ none → t.ports x ≡ none
  pub all_gone : (i : ℕ) (x : Address) → get_elem? gone i ≡ some x → t.ports x ≡ none
  pub old_connection :
      (c : Address) (k : Connection) → t.connections c ≡ some k → s.connections c ≡ some k
  pub kept_connection :
      (c : Address) (k : Connection)
      → s.connections c ≡ some k
      → NotIn k.output gone
      → ((b : Address) → k.input ≡ some b → NotIn b gone)
      → t.connections c ≡ some k

NotIn-ne : {a b : Address} {rest : List Address} → NotIn a (b ∷ rest) → (a ≢ b) × NotIn a rest
NotIn-ne (not_here ne m) = (ne, m)

Live-kept :
    (type : PortType) (a : Address) (s t : Scene) (live : List Address)
    → Keeps a s t
    → NotIn a live
    → Live s type live
    → Live t type live
Live-kept type a s t [] k m no_port = no_port
Live-kept type a s t (b ∷ rest) k m (port {p} h e u l) =
    let (ne, m') = NotIn-ne m in
    let (q, hq, eq) = k.alive b p h (λ z. ne (sym z)) in
    port hq (eq ∙ e) u (Live-kept type a s t rest k m' l)

one_gone :
    (t w : Scene) (rest : List Address) (a : Address)
    → Leaves rest t w
    → t.ports a ≡ none
    → (i : ℕ) (x : Address) → get_elem? (a ∷ rest) i ≡ some x
    → w.ports x ≡ none
one_gone t w rest a leaves h zero x e =
    let same : a ≡ x = cc in leaves.stays_gone x (ap t.ports (sym same) ∙ h)
one_gone t w rest a leaves h (suc i) x e = leaves.all_gone i x e

-- Different live ports can be deleted, and the pointers that are left agree.
pub delete_ports-Linked :
    (type : PortType) (gone : List Address) (s : Scene)
    → Linked none s
    → Live s type gone
    → (t : Scene) × (delete_ports gone s ≡ some t) × Linked none t × Leaves gone s t
unfolding delete_ports
delete_ports-Linked type [] s l v = (
  s,
  refl,
  l,
  record {
    alive = λ x p h m. (p, h, refl);
    stays_gone = λ x h. h;
    all_gone = λ i x h. absurd (cc);
    old_connection = λ c k h. h;
    kept_connection = λ c k h out ni. h;
  },
)
delete_ports-Linked type (a ∷ rest) s l (port {p} h e u v) =
    let (t, run, lt, k) = delete_port-Linked a p s l h in
    let (w, run', lw, leaves) =
      delete_ports-Linked type rest t lt (Live-kept type a s t rest k u v) in
    (
      w,
      ap (λ o. o >>= delete_ports rest) run ∙ run',
      lw,
      record {
        alive = λ x q hq m.
            let (ne, m') = NotIn-ne m in
            let (r, hr, er) = k.alive x q hq ne in
            let (z, hz, ez) = leaves.alive x r hr m' in (z, hz, ez ∙ er);
        stays_gone = λ x hx. leaves.stays_gone x (k.gone x hx);
        all_gone = one_gone t w rest a leaves k.here;
        old_connection = λ c j hj. k.old_connection c j (leaves.old_connection c j hj);
        kept_connection = λ c j hj out ni.
            leaves.kept_connection c j
              (k.kept_connection c j hj (NotIn-ne out).0 (λ z. (NotIn-ne (ni a z)).0 refl))
              (NotIn-ne out).1 (λ b z. (NotIn-ne (ni b z)).1);
      },
    )
