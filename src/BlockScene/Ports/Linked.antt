-- ===== src/BlockScene/Ports/Linked.antt =====
-- block-scene/src: the pointers of ports and connections agree, and what the deletion of a connection does
-- to them.
use cosec_examples.Prelude.{
  ◌<◌, ◌≡◌, ◌≢◌, refl, sym, ◌∙◌, ap, ◌⊎◌, inl, inr, true, Option, none, some, arith,
}
use cosec_examples.BlockScene.Ports.{
  Address, input_type, output_type, Port, Connection, Scene, put, put_port, put_connection,
  disconnect, disconnect_input, delete_connection,
}

module _ {A : Type 0} where
  pub put_self : (a : Address) (v : A) (f : Address → A) → put a v f a ≡ v
  unfolding put
  put_self a v f = ground arith

  pub put_ne : (a x : Address) (v : A) (f : Address → A) → x ≢ a → put a v f x ≡ f x
  unfolding put
  put_ne a x v f h = ground (arith, h)

-- A port is an end of a connection.
abbrev pub IsEnd : Connection → Address → Type 0
IsEnd k x = (k.output ≡ x) ⊎ (k.input ≡ some x)

-- `held` is the port that a new connection is dragged from.
pub record Linked (held : Option Address) (s : Scene) : Type 0 where
  pub output_linked :
      (c : Address) (k : Connection)
      → s.connections c ≡ some k
      → (p : Port) × (s.ports k.output ≡ some p)
        × (p.port_type ≡ output_type)
        × (p.connection ≡ some c)
  pub input_linked :
      (c : Address) (k : Connection) (b : Address)
      → s.connections c ≡ some k
      → k.input ≡ some b
      → (p : Port) × (s.ports b ≡ some p)
        × (p.port_type ≡ input_type)
        × ((p.connection ≡ some c) ⊎ (held ≡ some k.output))
  pub connected :
      (a : Address) (p : Port) (c : Address)
      → s.ports a ≡ some p
      → p.connection ≡ some c
      → (k : Connection) × (s.connections c ≡ some k) × IsEnd k a
  pub creating :
      (a : Address) (p : Port) → s.ports a ≡ some p → p.creating_connection ≡ true → held ≡ some a
  pub fresh : (c : Address) (k : Connection) → s.connections c ≡ some k → c < s.next_connection
  pub fresh_port : (a : Address) (p : Port) → s.ports a ≡ some p → a < s.next_port

-- A connection is gone, and its ends are free.
pub record Detached (c : Address) (k : Connection) (s t : Scene) : Type 0 where
  pub at_end :
      (x : Address) (p : Port)
      → s.ports x ≡ some p
      → IsEnd k x
      → t.ports x ≡ some (record p { connection = none })
  pub elsewhere : (x : Address) → k.output ≢ x → k.input ≢ some x → t.ports x ≡ s.ports x
  pub gone : t.connections ≡ put c none s.connections
  pub next : t.next_connection ≡ s.next_connection
  pub next_port : t.next_port ≡ s.next_port

abbrev pub clear : Port → Port
clear p = record p { connection = none }

abbrev cleared : Address → Port → Scene → Scene
cleared a p s = put_port a (some (clear p)) s

disconnect-some :
    (a : Address) (s : Scene) (p : Port)
    → s.ports a ≡ some p
    → disconnect a s ≡ some (cleared a p s)
unfolding disconnect
disconnect-some a s p h = rw h refl

cleared-at :
    (a x : Address) (p q : Port) (s : Scene)
    → s.ports a ≡ some p
    → s.ports x ≡ some q
    → a ≡ x
    → (cleared a p s).ports x ≡ some (clear q)
unfolding put_port
cleared-at a x p q s hp hq e =
    let same : p ≡ q = cc in
    ap (put a (some (clear p)) s.ports) (sym e)
    ∙ put_self a (some (clear p)) s.ports
    ∙ ap (λ r. some (clear r)) same

cleared-ne : (a x : Address) (p : Port) (s : Scene) → a ≢ x → (cleared a p s).ports x ≡ s.ports x
unfolding put_port
cleared-ne a x p s h = put_ne a x (some (clear p)) s.ports (λ q. h (sym q))

module _ (s : Scene) (c : Address) (k : Connection) (h : s.connections c ≡ some k) (p : Port)
    (hp : s.ports k.output ≡ some p) where
  abbrev alone : Scene
  alone = put_connection c none (cleared k.output p s)

  pub delete_connection-alone :
      k.input ≡ none → (t : Scene) × (delete_connection c s ≡ some t) × Detached c k s t
  unfolding delete_connection disconnect_input put_port put_connection
  delete_connection-alone hi = (
    alone,
    rw (h, disconnect-some k.output s p hp, hi) refl,
    record {
      at_end =
          λ x q hq d. elim d [ inl e ↦ cleared-at k.output x p q s hp hq e | inr e ↦ absurd (cc) ];
      elsewhere = λ x ne _. cleared-ne k.output x p s ne;
      gone = refl;
      next = refl;
      next_port = refl;
    },
  )

  module _ (b : Address) (q : Port) (hi : k.input ≡ some b) (hq : s.ports b ≡ some q)
      (ne : k.output ≢ b) where
    abbrev both : Scene
    both = put_connection c none (cleared b q (cleared k.output p s))

    still : (cleared k.output p s).ports b ≡ some q
    still = cleared-ne k.output b p s ne ∙ hq

    pub delete_connection-both : (t : Scene) × (delete_connection c s ≡ some t) × Detached c k s t
    unfolding delete_connection disconnect_input put_port put_connection
    delete_connection-both = (
      both,
      rw (h, disconnect-some k.output s p hp, hi, disconnect-some b (cleared k.output p s) q still)
          refl,
      record {
        at_end = λ x r hr d. elim d [
          | inl e ↦
              cleared-ne b x q (cleared k.output p s) (λ z. ne (e ∙ sym z))
              ∙ cleared-at k.output x p r s hp hr e
          | inr e ↦
              let z : b ≡ x = cc in
              cleared-at b x q r (cleared k.output p s) still
                (cleared-ne k.output x p s (λ w. ne (w ∙ sym z)) ∙ hr) z
        ];
        elsewhere = λ x out ni.
            cleared-ne b x q (cleared k.output p s) (λ z. ni (hi ∙ ap some z))
            ∙ cleared-ne k.output x p s out;
        gone = refl;
        next = refl;
        next_port = refl;
      },
    )
