-- ===== src/BlockScene/Ports/Gesture.antt =====
-- block-scene/src/port.cpp: the press, the moves and the release of the mouse make a connection.
use cosec_examples.Prelude.{◌≡◌, ◌≢◌, refl, sym, ◌∙◌, ap, true, Option, none, some, List, [], ◌∷◌}
use cosec_examples.BlockScene.Ports.{
  Address, output_type, Port, Scene, put_port, finish, stop_creating, mouse_press, mouse_release,
  drag, ◌>>=◌,
}
use cosec_examples.BlockScene.Ports.Linked.{put_self, put_ne, Linked}
use cosec_examples.BlockScene.Ports.Dragged.{Dragging, mouse_press-Dragging}
use cosec_examples.BlockScene.Ports.Moved.{Under, mouse_move-Dragging}
use cosec_examples.BlockScene.Ports.Released.{
  stopped, after_stop, stopped-Linked, stop_creating-run, dropped,
}
use cosec_examples.BlockScene.Ports.Joined.{
  after_join, joined-Linked, joined-Settled, finish-run, a_ne_b,
}

unfoldable pub connection_of : Address → Scene → Option Address
connection_of a s = do p ← s.ports a; p.connection

-- Where the end of the connection is after the moves of the mouse.
pub data Follows (s : Scene)
    : Option Address → List (Option Address) → Option Address → Type 0 where
  still : {end : Option Address} → Follows s end [] end
  moved :
      {old over new last : Option Address} {rest : List (Option Address)}
      → Under s over new
      → Follows s new rest last
      → Follows s old (over ∷ rest) last

-- What the gesture leads to.
pub data Ends (a c : Address) : Option Address → Scene → Type 0 where
  no_connection : {w : Scene} → connection_of a w ≡ none → Ends a c none w
  connection_made :
      {w : Scene} {b : Address}
      → w.connections c ≡ some (record { output = a; input = some b })
      → connection_of a w ≡ some c
      → connection_of b w ≡ some c
      → Ends a c (some b) w

module _ (a : Address) (p : Port) (c : Address) (s t : Scene)
    (is_out : p.port_type ≡ output_type) where
  mouse_release-run :
      (end : Option Address) (u w : Scene)
      → Dragging a p c end s t
      → finish end c t ≡ some u
      → stop_creating a u ≡ some w
      → mouse_release a t ≡ some w
  unfolding mouse_release
  mouse_release-run end u w d e e' = rw (d.here, d.dragged, e) e'

  release-none :
      Dragging a p c none s t
      → (w : Scene) × (mouse_release a t ≡ some w) × Linked none w × Ends a c none w
  unfolding put_port connection_of
  release-none d =
      let (u, run, lu, here, settled) = dropped a p c s t d in
      let q : Port = record p { connection = none; creating_connection = true } in
      (
        after_stop a q u lu here settled,
        mouse_release-run none u _ d run (stop_creating-run a q u lu here settled),
        stopped-Linked a q u lu here settled,
        no_connection (rw (put_self a (some (stopped q)) u.ports) refl),
      )

  release-some :
      (b : Address) (q : Port)
      → Dragging a p c (some b) s t
      → t.ports b ≡ some q
      → q.connection ≡ none
      → (w : Scene) × (mouse_release a t ≡ some w) × Linked none w × Ends a c (some b) w
  unfolding put_port connection_of
  release-some b q d hq free =
      let u = after_join a p c b q s t d is_out hq free in
      let lu = joined-Linked a p c b q s t d is_out hq free in
      let settled = joined-Settled a p c b q s t d is_out hq free in
      let ne = a_ne_b a p c b q s t d is_out hq free in
      let r : Port = record p { connection = some c; creating_connection = true } in
      let here : u.ports a ≡ some r = put_ne b a _ t.ports ne ∙ d.here in
      let there : u.ports b ≡ some (record q { connection = some c }) = put_self b _ t.ports in
      (
        after_stop a r u lu here settled,
        mouse_release-run (some b) u _ d (finish-run a p c b q s t d is_out hq free)
            (stop_creating-run a r u lu here settled),
        stopped-Linked a r u lu here settled,
        connection_made d.dragged (rw (put_self a (some (stopped r)) u.ports) refl)
            (rw (put_ne a b (some (stopped r)) u.ports (λ z. ne (sym z)), there) refl),
      )

-- The port at an end is free.
abbrev pub Free : Scene → Address → Option Address → Type 0
Free s a end =
    (b : Address)
    → end ≡ some b
    → (b ≢ a) × ((q : Port) × (s.ports b ≡ some q) × (q.connection ≡ none))

module _ (a : Address) (p : Port) (s : Scene) (h : s.ports a ≡ some p)
    (is_out : p.port_type ≡ output_type) where
  release-Linked :
      (c : Address) (end : Option Address) (t : Scene)
      → Free s a end
      → Dragging a p c end s t
      → (w : Scene) × (mouse_release a t ≡ some w) × Linked none w × Ends a c end w
  release-Linked c none t free d = release-none a p c s t is_out d
  release-Linked c (some b) t free d =
      let (ne, there) = free b refl in
      let (q, hq, hc) = there in release-some a p c s t is_out b q d (d.elsewhere b ne ∙ hq) hc

  drag-Linked :
      (c : Address) (end last : Option Address) (overs : List (Option Address)) (t : Scene)
      → Follows s end overs last
      → Free s a last
      → Dragging a p c end s t
      → (w : Scene) × (drag a overs t ≡ some w) × Linked none w × Ends a c last w
  unfolding drag
  drag-Linked c _ last _ t still free d = release-Linked c last t free d
  drag-Linked c end last _ t (moved {over} {new} {rest} u f) free d =
      let (v, run, dv) = mouse_move-Dragging a p c end s t d is_out over new h u in
      let (w, run', lw, ends) = drag-Linked c new last rest v f free dv in
      (w, ap (λ o. o >>= drag a rest) run ∙ run', lw, ends)

  -- In a scene whose pointers agree, a press of the left button on a free output port, moves over live
  -- ports or none, and the release have a result when the last input port under the mouse, if any, is
  -- free: the pointers agree again, and either both ports and the new connection point to each other,
  -- or no input port was last and the output port is free again.
  pub mouse_press-drag :
      (overs : List (Option Address)) (last : Option Address)
      → Linked none s
      → p.connection ≡ none
      → Follows s none overs last
      → Free s a last
      → (w : Scene) × ((mouse_press a true s >>= drag a overs) ≡ some w)
        × Linked none w
        × Ends a s.next_connection last w
  mouse_press-drag overs last l free_output f free =
      let (t, run, d) = mouse_press-Dragging a p s l h is_out free_output in
      let (w, run', lw, ends) = drag-Linked s.next_connection none last overs t f free d in
      (w, ap (λ o. o >>= drag a overs) run ∙ run', lw, ends)
