-- ===== src/BlockScene/Ports/Resized.antt =====
-- block-scene/src/block.cpp: Block::setIOs keeps the scene's pointers in order.
use cosec_examples.Prelude.{
  get_elem?, drop-length, Option-cases, take-length, ℕ, zero, suc, ◌-◌, ◌<◌, ◌≤◌, ◌≡◌, ◌≢◌, refl,
  sym, ◌∙◌, ap, ◌⊎◌, inl, inr, false, none, some, List, [], ◌∷◌, ◌++◌, length, take, drop,
  length-append, length-take, arith, ltb, ◌==◌, Bool-cases, ==_iff, ltb→lt,
}
use cosec_examples.BlockScene.Ports.{
  Address, PortType, Port, Connection, Scene, put, delete_ports, new_ports, set_ios,
}
use cosec_examples.BlockScene.Ports.Linked.{put_self, put_ne, IsEnd, Linked}
use cosec_examples.BlockScene.Ports.Deleted.{ℕ-cases}
use cosec_examples.BlockScene.Ports.Ios.{
  NotIn, nowhere, not_here, Live, no_port, port, Leaves, delete_ports-Linked,
}

abbrev blank : PortType → Port
blank type = record { port_type = type; connection = none; creating_connection = false }

abbrev with_new : PortType → Scene → Scene
with_new type s = record s {
  ports = put s.next_port (some (blank type)) s.ports;
  next_port = suc s.next_port;
}

module _ (type : PortType) (s : Scene) (l : Linked none s) where
  old_ne : (x : Address) (p : Port) → s.ports x ≡ some p → x ≢ s.next_port
  old_ne x p h z = absurd (omega (arith, l.fresh_port x p h, z))

  old_port : (x : Address) (p : Port) → s.ports x ≡ some p → (with_new type s).ports x ≡ some p
  old_port x p h = put_ne s.next_port x (some (blank type)) s.ports (old_ne x p h) ∙ h

  -- A port of the new scene is the new one or an old one.
  either_port :
      (x : Address) (p : Port)
      → (with_new type s).ports x ≡ some p
      → ((x ≡ s.next_port) × (p ≡ blank type)) ⊎ (s.ports x ≡ some p)
  either_port x p h = elim (ℕ-cases x s.next_port) [
    | inl z ↦
        let at =
          ap (put s.next_port (some (blank type)) s.ports) z
          ∙ put_self s.next_port (some (blank type)) s.ports in
        inl (z, cc)
    | inr ne ↦ inr (sym (put_ne s.next_port x (some (blank type)) s.ports ne) ∙ h)
  ]

  new-Linked : Linked none (with_new type s)
  new-Linked = record {
    output_linked =
        λ c k hk. let (p, hp, o, hc) = l.output_linked c k hk in (p, old_port k.output p hp, o, hc);
    input_linked =
        λ c k b hk hb. let (p, hp, i, w) = l.input_linked c k b hk hb in (p, old_port b p hp, i, w);
    connected = λ x p c hp hc. elim (either_port x p hp) [
      | inl (_, z) ↦ absurd (cc (ap (λ r. r.connection) z))
      | inr hs ↦ l.connected x p c hs hc
    ];
    creating = λ x p hp hc. elim (either_port x p hp) [
      | inl (_, z) ↦ absurd (cc (ap (λ r. r.creating_connection) z))
      | inr hs ↦ l.creating x p hs hc
    ];
    fresh = l.fresh;
    fresh_port = λ x p hp. elim (either_port x p hp) [
      | inl (z, _) ↦ omega (arith, z)
      | inr hs ↦ omega (arith, l.fresh_port x p hs)
    ];
  }

pub record Added (type : PortType) (n : ℕ) (s : Scene) (r : List Address × Scene) : Type 0 where
  pub linked : Linked none r.1
  pub live : Live r.1 type r.0
  count : length r.0 ≡ n
  old : (x : Address) → x < s.next_port → r.1.ports x ≡ s.ports x
  free : (i : ℕ) (x : Address) → get_elem? r.0 i ≡ some x → r.1.ports x ≡ some (blank type)
  connections : r.1.connections ≡ s.connections
  above : (x : Address) → x < s.next_port → NotIn x r.0

first_free :
    (type : PortType) (s : Scene) (r : List Address × Scene)
    → ((i : ℕ) (x : Address) → get_elem? r.0 i ≡ some x → r.1.ports x ≡ some (blank type))
    → r.1.ports s.next_port ≡ some (blank type)
    → (i : ℕ) (x : Address) → get_elem? (s.next_port ∷ r.0) i ≡ some x
    → r.1.ports x ≡ some (blank type)
first_free type s r f h zero x e = let same : s.next_port ≡ x = cc in ap r.1.ports (sym same) ∙ h
first_free type s r f h (suc i) x e = f i x e

pub new_ports-Added :
    (type : PortType) (n : ℕ) (s : Scene) → Linked none s → Added type n s (new_ports type n s)
unfolding new_ports
new_ports-Added type zero s l = record {
  linked = l;
  live = no_port;
  count = refl;
  old = λ x h. refl;
  free = λ i x h. absurd (cc);
  connections = refl;
  above = λ x h. nowhere;
}
new_ports-Added type (suc n) s l =
    let r = new_ports-Added type n (with_new type s) (new-Linked type s l) in
    record {
      linked = r.linked;
      live =
          port (r.old s.next_port (omega arith) ∙ put_self s.next_port (some (blank type)) s.ports)
            refl (r.above s.next_port (omega arith)) r.live;
      count = ap suc r.count;
      old = λ x h.
          r.old x (omega (arith, h))
          ∙ put_ne s.next_port x (some (blank type)) s.ports (λ z. absurd (omega (arith, h, z)));
      free =
          first_free type s (new_ports type n (with_new type s)) r.free
            (r.old s.next_port (omega arith) ∙ put_self s.next_port (some (blank type)) s.ports);
      connections = r.connections;
      above = λ x h. not_here (λ z. absurd (omega (arith, h, z))) (r.above x (omega (arith, h)));
    }

NotIn-append : (a : Address) (xs ys : List Address) → NotIn a xs → NotIn a ys → NotIn a (xs ++ ys)
NotIn-append a [] ys nowhere m = m
NotIn-append a (x ∷ xs) ys (not_here ne h) m = not_here ne (NotIn-append a xs ys h m)

NotIn-take : (a : Address) (n : ℕ) (xs : List Address) → NotIn a xs → NotIn a (take n xs)
NotIn-take a zero xs m = nowhere
NotIn-take a (suc n) [] m = nowhere
NotIn-take a (suc n) (x ∷ xs) (not_here ne m) = not_here ne (NotIn-take a n xs m)

pub NotIn-drop : (a : Address) (n : ℕ) (xs : List Address) → NotIn a xs → NotIn a (drop n xs)
NotIn-drop a zero xs m = m
NotIn-drop a (suc n) [] m = nowhere
NotIn-drop a (suc n) (x ∷ xs) (not_here ne m) = NotIn-drop a n xs m

module _ (type : PortType) (s t : Scene) where
  Live-append :
      (xs ys : List Address)
      → Live s type xs
      → ((x : Address) (p : Port) → s.ports x ≡ some p → (t.ports x ≡ some p) × NotIn x ys)
      → Live t type ys
      → Live t type (xs ++ ys)
  Live-append [] ys no_port f m = m
  Live-append (x ∷ xs) ys (port {p} h e u v) f m =
      let (now, apart) = f x p h in
      port now e (NotIn-append x xs ys u apart) (Live-append xs ys v f m)

  Live-drop : (n : ℕ) (xs : List Address) → Live s type xs → Live s type (drop n xs)
  Live-drop zero xs v = v
  Live-drop (suc n) [] v = v
  Live-drop (suc n) (x ∷ xs) (port h e u v) = Live-drop n xs v

  Live-take :
      (n : ℕ) (xs : List Address)
      → Live s type xs
      → Leaves (drop n xs) s t
      → Live t type (take n xs)
  Live-take zero xs v k = no_port
  Live-take (suc n) [] v k = no_port
  Live-take (suc n) (x ∷ xs) (port {p} h e u v) k =
      let (q, hq, eq) = k.alive x p h (NotIn-drop x n xs u) in
      port hq (eq ∙ e) (NotIn-take x n xs u) (Live-take n xs v k)

take_all : (n : ℕ) (xs : List Address) → length xs ≤ n → take n xs ≡ xs
take_all zero [] h = refl
take_all (suc n) [] h = refl
take_all zero (x ∷ xs) h = absurd (omega (arith, h))
take_all (suc n) (x ∷ xs) h = ap (λ r. x ∷ r) (take_all n xs (omega (arith, h)))

drop_all : (n : ℕ) (xs : List Address) → length xs ≤ n → drop n xs ≡ []
drop_all zero [] h = refl
drop_all (suc n) [] h = refl
drop_all zero (x ∷ xs) h = absurd (omega (arith, h))
drop_all (suc n) (x ∷ xs) h = drop_all n xs (omega (arith, h))

-- Nothing is over.
none_over :
    (n : ℕ) (xs : List Address) (i : ℕ) (x : Address)
    → length xs ≤ n
    → get_elem? (drop n xs) i ≡ some x
    → ⊥
none_over n xs i x h e = let gone = ap (λ r. get_elem? r i) (drop_all n xs h) in absurd (cc)

over : (a b : ℕ) → (a == b) ≡ false → ltb a b ≡ false → b < a
over a b h k = ground arith

-- The ports of a block after setIOs.
pub record Resized (n : ℕ) (type : PortType) (v : List Address) (s : Scene)
    (r : List Address × Scene) : Type 0 where
  pub linked : Linked none r.1
  pub live : Live r.1 type r.0
  pub count : length r.0 ≡ n
  pub first_ports : take (length v) r.0 ≡ take n v
  pub others :
      (x : Address) (p : Port)
      → s.ports x ≡ some p
      → NotIn x (drop n v)
      → (q : Port) × (r.1.ports x ≡ some q) × (q.port_type ≡ p.port_type)
  pub gone : (i : ℕ) (x : Address) → get_elem? (drop n v) i ≡ some x → r.1.ports x ≡ none
  pub deleted :
      (i : ℕ) (x c : Address) (k : Connection)
      → get_elem? (drop n v) i ≡ some x
      → s.connections c ≡ some k
      → IsEnd k x
      → r.1.connections c ≡ none
  pub kept :
      (c : Address) (k : Connection)
      → s.connections c ≡ some k
      → NotIn k.output (drop n v)
      → ((b : Address) → k.input ≡ some b → NotIn b (drop n v))
      → r.1.connections c ≡ some k
  pub free :
      (i : ℕ) (x : Address)
      → get_elem? (drop (length v) r.0) i ≡ some x
      → r.1.ports x ≡ some (blank type)

-- A connection of a port that is gone is gone.
no_connection :
    (s t : Scene) (x c : Address) (k : Connection)
    → Linked none t
    → ((c : Address) (k : Connection) → t.connections c ≡ some k → s.connections c ≡ some k)
    → t.ports x ≡ none
    → s.connections c ≡ some k
    → IsEnd k x
    → t.connections c ≡ none
no_connection s t x c k l old gone hk end = elim (Option-cases (t.connections c)) [
  | inl e ↦ e
  | inr (j, e) ↦
      let at = old c j e in
      let same : j ≡ k = cc in
      elim end [
        | inl o ↦
            let (p, hp, _, _) = l.output_linked c j e in
            let there = ap t.ports (ap (λ r. r.output) same ∙ o) in absurd (cc)
        | inr i ↦
            let (p, hp, _, _) = l.input_linked c j x e (ap (λ r. r.input) same ∙ i) in absurd (cc)
      ]
]

module _ (n : ℕ) (type : PortType) (v : List Address) (s : Scene) (l : Linked none s)
    (live : Live s type v) where
  same_count : n ≡ length v → Resized n type v s (v, s)
  same_count e = record {
    linked = l;
    live = live;
    count = sym e;
    first_ports = ap (λ k. take k v) (sym e);
    others = λ x p h m. (p, h, refl);
    gone = λ i x h. absurd (none_over n v i x (omega (arith, e)) h);
    deleted = λ i x c k h. absurd (none_over n v i x (omega (arith, e)) h);
    kept = λ c k h out ni. h;
    free = λ i x h. absurd (none_over (length v) v i x (omega arith) h);
  }

  fewer :
      n < length v
      → (t : Scene) × (delete_ports (drop n v) s ≡ some t) × Resized n type v s (take n v, t)
  fewer h =
      let (t, run, lt, leaves) =
        delete_ports-Linked type (drop n v) s l (Live-drop type s s n v live) in
      (
        t,
        run,
        record {
          linked = lt;
          live = Live-take type s t n v live leaves;
          count = omega (arith, h, length-take n v);
          first_ports = take_all (length v) (take n v) (omega (arith, length-take n v));
          others = leaves.alive;
          gone = leaves.all_gone;
          deleted = λ i x c k hx.
              no_connection s t x c k lt leaves.old_connection (leaves.all_gone i x hx);
          kept = leaves.kept_connection;
          free = λ i x hx.
              absurd (none_over (length v) (take n v) i x (omega (arith, length-take n v)) hx);
        },
      )

  more :
      length v < n
      → Resized n type v s
          (v ++ (new_ports type (n - length v) s).0, (new_ports type (n - length v) s).1)
  more h =
      let r = new_ports-Added type (n - length v) s l in
      let (added, t) = new_ports type (n - length v) s in
      let same : (x : Address) (p : Port) → s.ports x ≡ some p → t.ports x ≡ some p =
        λ x p hp. r.old x (l.fresh_port x p hp) ∙ hp in
      record {
        linked = r.linked;
        live =
            Live-append type s t v added live
              (λ x p hp. (same x p hp, r.above x (l.fresh_port x p hp))) r.live;
        count = omega (arith, h, length-append v added, r.count);
        first_ports = take-length v added ∙ sym (take_all n v (omega (arith, h)));
        others = λ x p hp _. (p, same x p hp, refl);
        gone = λ i x hx. absurd (none_over n v i x (omega (arith, h)) hx);
        deleted = λ i x c k hx. absurd (none_over n v i x (omega (arith, h)) hx);
        kept = λ c k hk out ni. ap (λ f. f c) r.connections ∙ hk;
        free = λ i x hx. r.free i x (ap (λ xs. get_elem? xs i) (sym (drop-length v added)) ∙ hx);
      }

  -- In a scene whose pointers agree, a block's ports of one type, all alive and different, become n ports:
  -- the first ones stay; those over n are gone, and so is each connection with an end at one of them, but no
  -- other connection; the new ones have no connection; every other port stays alive, of its type; and the
  -- pointers agree.
  pub set_ios-Resized :
      (r : List Address × Scene) × (set_ios n type v s ≡ some r) × Resized n type v s r
  unfolding set_ios
  set_ios-Resized = elim (Bool-cases (n == length v)) [
    | inl e ↦ ((v, s), rw e refl, same_count ((==_iff n (length v)).0 e))
    | inr e ↦ elim (Bool-cases (ltb n (length v))) [
      | inl b ↦
          let (t, run, z) = fewer (ltb→lt n (length v) b) in ((take n v, t), rw (e, b, run) refl, z)
      | inr b ↦ (
        (v ++ (new_ports type (n - length v) s).0, (new_ports type (n - length v) s).1),
        rw (e, b) refl,
        more (over n (length v) e b),
      )
    ]
  ]
