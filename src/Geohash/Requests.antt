-- ===== src/Geohash/Requests.antt =====
-- geohash/src/mainwidget.cpp: how many requests are sent.
use cosec_examples.Prelude.{
  ℕ, suc, ◌+◌, ◌-◌, ◌*◌, ◌≤◌, ◌≡◌, refl, ap, subst, Bool-cases, inl, inr, Option, none, some, List,
  [], ◌∷◌, ltb, ltb→le, length, length-append, arith,
}
use cosec_examples.Geohash.{
  Qt, Error, Reply, failed, body, Coordinate, MainWidget, append_log, update_timeout, error,
  position_updated, request_of, send_dow_request, first_date, clicked, on_do_button_clicked, retry,
  show, show_at, reply_finished, History, starts, fails, times_out, moves, clicks_button,
  gets_reply,
}

module _ {Date Double : Type 0} (qt : Qt Date Double) where
  -- After `clicks` clicks.
  data Sent (clicks : ℕ) (w : MainWidget Date Double) : Type 0 where
    nothing : w.requests ≡ [] → Sent clicks w
    something :
        {c : Double × Double}
        → w.coord ≡ some c
        → length w.requests + (3 - w.tries) ≤ 4 * clicks
        → Sent clicks w

  error-Sent :
      (clicks : ℕ) (e : Error) (w : MainWidget Date Double)
      → Sent clicks w
      → Sent clicks (error qt e w)
  unfolding error update_timeout append_log
  error-Sent clicks e w (nothing r) = nothing r
  error-Sent clicks e w (something c h) = something c h

  update_timeout-Sent :
      (clicks : ℕ) (w : MainWidget Date Double) → Sent clicks w → Sent clicks (update_timeout qt w)
  unfolding update_timeout
  update_timeout-Sent clicks w (nothing r) = nothing r
  update_timeout-Sent clicks w (something c h) = something c h

  position_updated-Sent :
      (clicks : ℕ) (c : Coordinate Double) (w : MainWidget Date Double)
      → Sent clicks w
      → Sent clicks (position_updated qt c w)
  unfolding position_updated
  position_updated-Sent clicks none w h = update_timeout-Sent clicks w h
  position_updated-Sent clicks (some c) w (nothing r) = nothing r
  position_updated-Sent clicks (some c) w (something d h) = something refl h

  more_clicks : (clicks : ℕ) (w : MainWidget Date Double) → Sent clicks w → Sent (suc clicks) w
  more_clicks clicks w (nothing r) = nothing r
  more_clicks clicks w (something c h) = something c (omega (arith, h))

  few_requests :
      (clicks : ℕ) (w : MainWidget Date Double) → Sent clicks w → length w.requests ≤ 4 * clicks
  few_requests clicks w (nothing r) = omega (arith, ap length r)
  few_requests clicks w (something c h) = omega (arith, h)

  clicked-Sent :
      (clicks : ℕ) (today : Date) (c : Coordinate Double) (w : MainWidget Date Double)
      → w.coord ≡ c
      → Sent clicks w
      → Sent (suc clicks) (clicked qt today c w)
  unfolding clicked send_dow_request append_log
  clicked-Sent clicks today none w e h = more_clicks clicks w h
  clicked-Sent clicks today (some (latitude, longitude)) w e h = something e (
      omega (
        arith,
        few_requests clicks w h,
        length-append w.requests (request_of qt (first_date qt today longitude) ∷ []),
      ))

  retry-Sent :
      (clicks : ℕ) (ba : List ℕ) (c : Double × Double) (w : MainWidget Date Double)
      → w.coord ≡ some c
      → length w.requests + (3 - w.tries) ≤ 4 * clicks
      → Sent clicks (retry qt ba w)
  unfolding retry append_log send_dow_request
  retry-Sent clicks ba c w e h = elim (Bool-cases (ltb 3 (suc w.tries))) [
    | inl b ↦ rw b (something e (omega (arith, h)))
    | inr b ↦ rw b (
        something e (
          omega (
            arith,
            h,
            ltb→le 3 (suc w.tries) b,
            length-append w.requests (request_of qt (qt.before w.date) ∷ []),
          )))
  ]

  -- A reply has a result.
  reply_finished-Sent :
      (clicks : ℕ) (r : Reply) (w : MainWidget Date Double)
      → 1 ≤ length w.requests
      → Sent clicks w
      → (t : MainWidget Date Double) × (reply_finished qt r w ≡ some t) × Sent clicks t
  unfolding reply_finished append_log show_at show
  reply_finished-Sent clicks r w some_request (nothing none_sent) =
      absurd (omega (arith, some_request, ap length none_sent))
  reply_finished-Sent clicks (failed e) w some_request (something c h) = (_, refl, something c h)
  reply_finished-Sent clicks (body ba) w some_request (something {c} e h) =
      elim (Bool-cases (qt.is_double ba)) [
        | inl b ↦ (show qt ba c w, rw (b, e) refl, something e h)
        | inr b ↦ (retry qt ba w, rw b refl, retry-Sent clicks ba c w e h)
      ]

  History-Sent :
      (s : MainWidget Date Double)
      → s.requests ≡ []
      → {clicks replies : ℕ} {o : Option (MainWidget Date Double)} → History qt s clicks replies o
      → (w : MainWidget Date Double) × (o ≡ some w) × Sent clicks w
  unfolding on_do_button_clicked
  History-Sent s none_sent starts = (s, refl, nothing none_sent)
  History-Sent s none_sent {clicks} (fails {w} h e) =
      let (v, q, i) = History-Sent s none_sent h in
      let same : v ≡ w = cc in (_, refl, error-Sent clicks e w (subst (Sent clicks) same i))
  History-Sent s none_sent {clicks} (times_out {w} h) =
      let (v, q, i) = History-Sent s none_sent h in
      let same : v ≡ w = cc in (_, refl, update_timeout-Sent clicks w (subst (Sent clicks) same i))
  History-Sent s none_sent {clicks} (moves {w} h c) =
      let (v, q, i) = History-Sent s none_sent h in
      let same : v ≡ w = cc in
      (_, refl, position_updated-Sent clicks c w (subst (Sent clicks) same i))
  History-Sent s none_sent (clicks_button {clicks} {w} h today) =
      let (v, q, i) = History-Sent s none_sent h in
      let same : v ≡ w = cc in
      (_, refl, clicked-Sent clicks today w.coord w refl (subst (Sent clicks) same i))
  History-Sent s none_sent {clicks} (gets_reply {w} h r answered) =
      let (v, q, i) = History-Sent s none_sent h in
      let same : v ≡ w = cc in
      reply_finished-Sent clicks r w (omega (arith, answered)) (subst (Sent clicks) same i)

  -- From a widget that has sent no request, whatever the order of clicks, replies and positions: each reply has a
  -- result, that is, no invalid coordinate is converted to int, and there are no more than four requests for each
  -- click.
  pub History-requests :
      (s : MainWidget Date Double)
      → s.requests ≡ []
      → {clicks replies : ℕ} {o : Option (MainWidget Date Double)} → History qt s clicks replies o
      → (w : MainWidget Date Double) × (o ≡ some w) × (length w.requests ≤ 4 * clicks)
  History-requests s none_sent {clicks} h =
      let (w, q, i) = History-Sent s none_sent h in (w, q, few_requests clicks w i)
