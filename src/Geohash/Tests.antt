-- ===== src/Geohash/Tests.antt =====
-- geohash/src/mainwidget.cpp: a click, a reply that is no double and one that is.
use cosec_examples.Prelude.{
  ℕ, ◌+◌, ◌-◌, ◌*◌, ◌/◌, ◌≤◌, ◌≡◌, refl, true, false, none, some, [], ◌∷◌, ◌++◌, map, length, ltb,
  take, arith,
}
use cosec_examples.Geohash.{
  Qt, body, QByteArray, MainWidget, append_log, send_dow_request, clicked, on_do_button_clicked,
  position_updated, hash_of, place, reply_finished, replies_finished, History, starts, moves,
  clicks_button, gets_reply,
}
use cosec_examples.Geohash.Requests.{History-requests}
use cosec_examples.Geohash.Replies.{
  no_text, one_text, days_before, earlier_requests, replies_finished-place,
}

-- A date is its number, a double is in 65536ths, and texts of digits only are doubles.
abbrev simple : Qt ℕ ℕ
simple = record {
  before = λ d. d - 1;
  year = λ d. d / 366;
  month = λ d. d / 31;
  day = λ d. d;
  iso_date = λ d. d ∷ [];
  from_utf8 = λ b. b;
  to_utf8 = λ s. s;
  is_double = λ b. elim b [ [] ↦ false | c ∷ _ ↦ ltb c 58 ];
  md5 = λ b. take 4 (b ++ (1 ∷ 2 ∷ 3 ∷ 4 ∷ []));
  of_int = λ n. n * 65536;
  sixteenth = 4096;
  plus = λ a b. a + b;
  times = λ a b. a * b / 65536;
  truncate = λ a. a / 65536 * 65536;
  at_least_minus_30 = λ a. true;
}

abbrev idle : MainWidget ℕ ℕ
idle = record {
  location = none;
  enabled = false;
  coord = none;
  date = 0;
  tries = 7;
  requests = [];
  map_view = none;
  log = [];
}

abbrev asked : MainWidget ℕ ℕ
asked =
    on_do_button_clicked simple 100 (position_updated simple (some (53 * 65536, 37 * 65536)) idle)

-- "<html>", where no index is there yet.
abbrev no_index : QByteArray
no_index = b'<' ∷ []

abbrev index : QByteArray
index = b'9' ∷ []

asked-History : History simple idle 1 1 (reply_finished simple (body no_index) asked)
unfolding on_do_button_clicked position_updated clicked send_dow_request append_log
asked-History =
    gets_reply (clicks_button (moves starts (some (53 * 65536, 37 * 65536))) 100) (body no_index)
      (omega arith)

History-requests_example :
    (w : MainWidget ℕ ℕ) × (reply_finished simple (body no_index) asked ≡ some w)
    × (length w.requests ≤ 4 * 1)
History-requests_example = History-requests simple idle refl asked-History

replies_finished-place_example :
    (t : MainWidget ℕ ℕ) × (replies_finished simple
        (map body (no_index ∷ []) ++ (body index ∷ []))
        asked
      ≡ some t)
    × (t.requests ≡ asked.requests ++ earlier_requests simple 1 asked.date)
    × (t.map_view
        ≡ some (
            place simple
              (hash_of simple (days_before simple 1 asked.date) index)
              (53 * 65536, 37 * 65536)))
unfolding on_do_button_clicked position_updated clicked send_dow_request append_log
replies_finished-place_example =
    replies_finished-place simple asked (53 * 65536, 37 * 65536) (no_index ∷ []) index refl
      (one_text refl no_text) (omega arith) refl
