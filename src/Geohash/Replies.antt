-- ===== src/Geohash/Replies.antt =====
-- geohash/src/mainwidget.cpp: what a series of replies leads to.
use cosec_examples.Prelude.{
  ℕ, zero, suc, ◌+◌, ◌≤◌, ◌<◌, ◌≡◌, refl, sym, ◌∙◌, ap, true, false, some, Option, none, some, List,
  [], ◌∷◌, ◌++◌, map, append_assoc, append-nil, le→ltb, lt→ltb, length, arith,
}
use cosec_examples.Geohash.{
  Qt, Request, Reply, body, QByteArray, Log, MainWidget, append_log, not_a_double,
  invalid_after_retries, request_of, send_dow_request, hash_of, place, retry, show, show_at,
  reply_finished, replies_finished,
}

-- No text is a double.
pub data NoDoubles {Date Double : Type 0} (qt : Qt Date Double) : List QByteArray → Type 0 where
  no_text : NoDoubles qt []
  one_text :
      {ba : QByteArray} {rest : List QByteArray}
      → qt.is_double ba ≡ false
      → NoDoubles qt rest
      → NoDoubles qt (ba ∷ rest)

module _ {Date Double : Type 0} (qt : Qt Date Double) where
  unfoldable pub days_before : ℕ → Date → Date
  days_before zero d = d
  days_before (suc n) d = days_before n (qt.before d)

  -- The requests for the n days before a date, the latest first.
  unfoldable pub earlier_requests : ℕ → Date → List Request
  earlier_requests zero d = []
  earlier_requests (suc n) d = request_of qt (qt.before d) ∷ earlier_requests n (qt.before d)

  -- The replies before are no doubles, and few enough to be tried again.
  record Tried (texts : List QByteArray) (w t : MainWidget Date Double) : Type 0 where
    pub requests : t.requests ≡ w.requests ++ earlier_requests (length texts) w.date
    pub date : t.date ≡ days_before (length texts) w.date
    pub tries : t.tries ≡ w.tries + length texts
    pub coord : t.coord ≡ w.coord
    pub map_view : t.map_view ≡ w.map_view

  replies_finished-some :
      (r : Reply) (rs : List Reply) (w t : MainWidget Date Double)
      → reply_finished qt r w ≡ some t
      → replies_finished qt (r ∷ rs) w ≡ replies_finished qt rs t
  unfolding replies_finished
  replies_finished-some r rs w t e =
      ap
        (λ (o : Option (MainWidget Date Double)). elim o [
          | none ↦ none
          | some u ↦ replies_finished qt rs u
        ])
        e

  module _ (w : MainWidget Date Double) (ba : QByteArray) where
    retried : MainWidget Date Double
    unfolding append_log
    retried =
        send_dow_request qt
          (record (append_log qt (not_a_double (qt.from_utf8 ba))
            (record w { tries = suc w.tries })) { date = qt.before w.date })

    reply_finished-retry :
        qt.is_double ba ≡ false → w.tries < 3 → reply_finished qt (body ba) w ≡ some retried
    unfolding reply_finished retry append_log retried
    reply_finished-retry wrong few = rw (wrong, le→ltb 3 (suc w.tries) (omega (arith, few))) refl

    retried-Tried :
        (texts : List QByteArray) (t : MainWidget Date Double)
        → Tried texts retried t
        → Tried (ba ∷ texts) w t
    unfolding retried send_dow_request append_log days_before earlier_requests
    retried-Tried texts t h = record {
      requests = h.requests ∙ append_assoc w.requests _ _;
      date = h.date;
      tries = omega (arith, h.tries);
      coord = h.coord;
      map_view = h.map_view;
    }

  replies_finished-Tried :
      (texts : List QByteArray) (w : MainWidget Date Double) (last : Reply)
      → NoDoubles qt texts
      → w.tries + length texts ≤ 3
      → (t : MainWidget Date Double) × (replies_finished qt (map body texts ++ (last ∷ [])) w
          ≡ replies_finished qt (last ∷ []) t)
        × Tried texts w t
  unfolding replies_finished days_before earlier_requests
  replies_finished-Tried [] w last wrong few = (
    w,
    refl,
    record {
      requests = sym (append-nil w.requests);
      date = refl;
      tries = omega arith;
      coord = refl;
      map_view = refl;
    },
  )
  replies_finished-Tried (ba ∷ texts) w last (one_text wrong nos) few =
      let (t, e, h) =
        replies_finished-Tried texts (retried w ba) last nos
          (unfold retried send_dow_request append_log in omega (arith, few)) in
      (
        t,
        replies_finished-some (body ba) _ w _ (reply_finished-retry w ba wrong (omega (arith, few)))
            ∙ e,
        retried-Tried w ba texts t h,
      )

  reply_finished-show :
      (ba : QByteArray) (c : Double × Double) (t : MainWidget Date Double)
      → qt.is_double ba ≡ true
      → t.coord ≡ some c
      → replies_finished qt (body ba ∷ []) t ≡ some (show qt ba c t)
  unfolding replies_finished reply_finished show_at
  reply_finished-show ba c t right e =
      replies_finished-some (body ba) [] t (show qt ba c t) (rw (right, e) refl)

  -- When a request is under way for a date, the coordinate is valid, and up to three replies in a row, the
  -- tries of before counted, are no doubles, then the days before are asked for one after the other; and when
  -- the next reply is a double, the map shows the place of its hash with the last date asked for, and no more
  -- is asked.
  pub replies_finished-place :
      (w : MainWidget Date Double) (c : Double × Double) (texts : List QByteArray) (ba : QByteArray)
      → w.coord ≡ some c
      → NoDoubles qt texts
      → w.tries + length texts ≤ 3
      → qt.is_double ba ≡ true
      → (t : MainWidget Date Double) × (replies_finished qt (map body texts ++ (body ba ∷ [])) w
          ≡ some t)
        × (t.requests ≡ w.requests ++ earlier_requests (length texts) w.date)
        × (t.map_view ≡ some (place qt (hash_of qt (days_before (length texts) w.date) ba) c))
  unfolding show
  replies_finished-place w c texts ba valid wrong few right =
      let (t, e, h) = replies_finished-Tried texts w (body ba) wrong few in
      (
        show qt ba c t,
        e ∙ reply_finished-show ba c t right (h.coord ∙ valid),
        h.requests,
        ap (λ d. some (place qt (hash_of qt d ba) c)) h.date,
      )

  -- The reply after three tries.
  reply_finished-exhausted :
      (ba : QByteArray) (t : MainWidget Date Double)
      → qt.is_double ba ≡ false
      → t.tries ≡ 3
      → replies_finished qt (body ba ∷ []) t
        ≡ some (
            append_log qt invalid_after_retries
              (append_log qt (not_a_double (qt.from_utf8 ba)) (record t { tries = suc t.tries })))
  unfolding replies_finished reply_finished retry append_log
  reply_finished-exhausted ba t wrong e =
      replies_finished-some (body ba) [] t _
        (rw (wrong, lt→ltb 3 (suc t.tries) (omega (arith, e))) refl)

  -- When four replies in a row, the tries of before counted, are no doubles, the three days before are asked for,
  -- no more, the last line of the log says so, and the map stays where it is.
  pub replies_finished-exhausted :
      (w : MainWidget Date Double) (texts : List QByteArray) (ba : QByteArray)
      → NoDoubles qt texts
      → w.tries + length texts ≡ 3
      → qt.is_double ba ≡ false
      → (t : MainWidget Date Double) × (replies_finished qt (map body texts ++ (body ba ∷ [])) w
          ≡ some t)
        × (t.requests ≡ w.requests ++ earlier_requests (length texts) w.date)
        × (t.map_view ≡ w.map_view)
        × ((l : List (Log Double)) × (t.log ≡ l ++ (invalid_after_retries ∷ [])))
  unfolding append_log
  replies_finished-exhausted w texts ba wrong three not_double =
      let (t, e, h) = replies_finished-Tried texts w (body ba) wrong (omega (arith, three)) in
      (
        _,
        e ∙ reply_finished-exhausted ba t not_double (omega (arith, h.tries, three)),
        h.requests,
        h.map_view,
        (_, refl),
      )
