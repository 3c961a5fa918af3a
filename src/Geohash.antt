-- ===== src/Geohash.antt =====
-- geohash/src/mainwidget.cpp: the widget that asks for the index of the day and shows the place of the day.
-- What the code calls of Qt and the arithmetic of double are a parameter.
pub mod Requests
pub mod Replies
mod Tests
use cosec_examples.Prelude.{
  ℕ, zero, suc, ◌+◌, ◌/◌, ◌%◌, ◌<◌, ◌≡◌, Bool, true, false, Option, none, some, List, [], ◌∷◌, ◌++◌,
  ltb, if◌then◌else◌, length, take, drop,
}

-- UTF-16 units.
abbrev pub QString : Type 0
QString = List ℕ

abbrev pub QByteArray : Type 0
QByteArray = List ℕ

-- QDate and double are parameters. before is addDays(-1), is_double the `ok` of toDouble, truncate the
-- conversion to int and back.
pub record Qt (Date Double : Type 0) : Type 0 where
  pub before : Date → Date
  pub year : Date → ℕ
  pub month : Date → ℕ
  pub day : Date → ℕ
  pub iso_date : Date → QString
  pub from_utf8 : QByteArray → QString
  pub to_utf8 : QString → QByteArray
  pub is_double : QByteArray → Bool
  pub md5 : QByteArray → QByteArray
  pub of_int : ℕ → Double
  pub sixteenth : Double
  pub plus : Double → Double → Double
  pub times : Double → Double → Double
  pub truncate : Double → Double
  pub at_least_minus_30 : Double → Bool

pub data Error : Type 0 where
  access_error closed_error unknown_error : Error

-- A request, by its date.
pub data Request : Type 0 where
  request : ℕ → ℕ → ℕ → Request

pub data Reply : Type 0 where
  failed : QString → Reply
  body : QByteArray → Reply

pub data Log (Double : Type 0) : Type 0 where
  geolocation : Error → Log Double
  sending : Request → Log Double
  reply_error : QString → Log Double
  not_a_double : QString → Log Double
  invalid_after_retries : Log Double
  dow : QString → QString → Log Double
  md5_of : QString → QByteArray → Log Double
  result : Double → Double → Log Double
  navigating : Double → Double → Log Double

-- A latitude and a longitude, if they are valid.
abbrev pub Coordinate : Type 0 → Type 0
Coordinate Double = Option (Double × Double)

-- `location` is what the label shows, `requests` what nam_ was to get, `map_view` where the map is.
pub record MainWidget (Date Double : Type 0) : Type 0 where
  pub location : Coordinate Double
  pub enabled : Bool
  pub coord : Coordinate Double
  pub date : Date
  pub tries : ℕ
  pub requests : List Request
  pub map_view : Option (Double × Double)
  pub log : List (Log Double)

module _ {Date Double : Type 0} (qt : Qt Date Double) where
  unfoldable pub append_log : Log Double → MainWidget Date Double → MainWidget Date Double
  append_log l w = record w { log = w.log ++ (l ∷ []) }

  unfoldable pub update_timeout : MainWidget Date Double → MainWidget Date Double
  update_timeout w = record w { location = none; enabled = false }

  unfoldable pub error : Error → MainWidget Date Double → MainWidget Date Double
  error e w = update_timeout (append_log (geolocation e) w)

  -- A position is valid only with its coordinate.
  unfoldable pub position_updated :
      Coordinate Double → MainWidget Date Double → MainWidget Date Double
  position_updated none w = update_timeout w
  position_updated (some c) w = record w { coord = some c; location = some c; enabled = true }

  unfoldable pub request_of : Date → Request
  request_of d = request (qt.year d) (qt.month d) (qt.day d)

  unfoldable pub send_dow_request : MainWidget Date Double → MainWidget Date Double
  send_dow_request w = record (append_log (sending (request_of w.date)) w) {
    requests = w.requests ++ (request_of w.date ∷ []);
  }

  -- The date that the index is asked of, `today` east of 30W being the day before.
  unfoldable pub first_date : Date → Double → Date
  first_date today longitude = if qt.at_least_minus_30 longitude then qt.before today else today

  unfoldable pub clicked :
      Date → Coordinate Double → MainWidget Date Double → MainWidget Date Double
  clicked today none w = w
  clicked today (some (_, longitude)) w =
      send_dow_request (record w { date = first_date today longitude; tries = 0 })

  unfoldable pub on_do_button_clicked : Date → MainWidget Date Double → MainWidget Date Double
  on_do_button_clicked today w = clicked today w.coord w

  -- The loop of hex2fraction, with r and w.
  unfoldable pub hex_loop : Double → Double → QByteArray → Double
  hex_loop r w [] = r
  hex_loop r w (b ∷ bs) =
      let w1 = qt.times w qt.sixteenth in
      let r1 = qt.plus r (qt.times (qt.of_int (b / 16)) w1) in
      let w2 = qt.times w1 qt.sixteenth in
      hex_loop (qt.plus r1 (qt.times (qt.of_int (b % 16)) w2)) w2 bs

  unfoldable pub hex2fraction : QByteArray → Double
  hex2fraction bytes = hex_loop (qt.of_int 0) (qt.of_int 1) bytes

  -- What is hashed: the date, '-' and the index.
  unfoldable pub hash_of : Date → QByteArray → QByteArray
  hash_of d ba = qt.md5 (qt.to_utf8 ((qt.iso_date d ++ (45 ∷ [])) ++ qt.from_utf8 ba))

  unfoldable pub place : QByteArray → Double × Double → Double × Double
  place hash (latitude, longitude) =
      let half_size = length hash / 2 in
      (
        qt.plus (qt.truncate latitude) (hex2fraction (take half_size hash)),
        qt.plus (qt.truncate longitude) (hex2fraction (take half_size (drop half_size hash))),
      )

  -- A reply that is no double: the day before is asked for, but not after the third time.
  unfoldable pub retry : QByteArray → MainWidget Date Double → MainWidget Date Double
  retry ba w =
      let t = append_log (not_a_double (qt.from_utf8 ba)) (record w { tries = suc w.tries }) in
      if ltb 3 t.tries
      then append_log invalid_after_retries t
      else send_dow_request (record t { date = qt.before t.date })

  unfoldable pub show :
      QByteArray → Double × Double → MainWidget Date Double → MainWidget Date Double
  show ba c w =
      let hash = hash_of w.date ba in
      let date_s = qt.iso_date w.date in
      let dow_s = qt.from_utf8 ba in
      let p = place hash c in
      record w {
        map_view = some p;
        log =
            w.log
            ++ (dow date_s dow_s
                ∷ (md5_of ((date_s ++ (45 ∷ [])) ++ dow_s) hash
                    ∷ (result (p.0) (p.1) ∷ (navigating (p.0) (p.1) ∷ []))));
      }

  -- The conversion of an invalid coordinate, which is not a number, to int has no result.
  unfoldable pub show_at :
      QByteArray → Coordinate Double → MainWidget Date Double → Option (MainWidget Date Double)
  show_at ba none w = none
  show_at ba (some c) w = some (show ba c w)

  unfoldable pub reply_finished : Reply → MainWidget Date Double → Option (MainWidget Date Double)
  reply_finished (failed e) w = some (append_log (reply_error e) w)
  reply_finished (body ba) w = if qt.is_double ba then show_at ba w.coord w else some (retry ba w)

  -- The replies to the requests so far, in order.
  unfoldable pub replies_finished :
      List Reply → MainWidget Date Double → Option (MainWidget Date Double)
  replies_finished [] w = some w
  replies_finished (r ∷ rs) w = elim (reply_finished r w) [
    | none ↦ none
    | some t ↦ replies_finished rs t
  ]

  -- Clicks, replies, and the widget after them; a reply is to a request that has none yet.
  pub data History (start : MainWidget Date Double)
      : ℕ → ℕ → Option (MainWidget Date Double) → Type 0 where
    starts : History start 0 0 (some start)
    fails :
        {clicks replies : ℕ} {w : MainWidget Date Double}
        → History start clicks replies (some w)
        → (e : Error) → History start clicks replies (some (error e w))
    times_out :
        {clicks replies : ℕ} {w : MainWidget Date Double}
        → History start clicks replies (some w)
        → History start clicks replies (some (update_timeout w))
    moves :
        {clicks replies : ℕ} {w : MainWidget Date Double}
        → History start clicks replies (some w)
        → (c : Coordinate Double) → History start clicks replies (some (position_updated c w))
    clicks_button :
        {clicks replies : ℕ} {w : MainWidget Date Double}
        → History start clicks replies (some w)
        → (today : Date) → History start (suc clicks) replies (some (on_do_button_clicked today w))
    gets_reply :
        {clicks replies : ℕ} {w : MainWidget Date Double}
        → History start clicks replies (some w)
        → (r : Reply) → replies < length w.requests
        → History start clicks (suc replies) (reply_finished r w)
