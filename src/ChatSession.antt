-- ===== src/ChatSession.antt =====
-- asio-shared/src/chat_session.cpp: a session reads lines and passes them to the room.
pub mod Lines
mod Tests
use cosec_examples.Prelude.{
  ℕ, zero, suc, ◌+◌, ◌≤◌, ◌<◌, ◌≡◌, ◌≢◌, Bool, Option, none, some, List, [], ◌∷◌, ◌++◌, length,
  take, drop,
}

abbrev pub Bytes : Type 0
Bytes = List ℕ

abbrev pub text_limit : ℕ
text_limit = 1024

abbrev pub newline : ℕ
newline = b'\n'

-- What the session calls of the room: session_created, session_destroyed, and message_received.
pub data Call : Type 0 where
  creates destroys : Call
  passes : Bytes → Call

-- Not started; an async_read_until is under way; it has ended by an error; destroyed, after a start or without.
pub data Phase : Type 0 where
  fresh reading ended gone never_started : Phase

-- Why async_read_until ends without a line: with the bytes there are, or none.
pub data Error : Type 0 where
  eof other : Error

pub data Log : Type 0 where
  failed_to_read connection_closed : Log

pub record ChatSession : Type 0 where
  pub in_buf : Bytes
  pub phase : Phase
  pub calls : List Call
  pub log : List Log

abbrev pub constructed : ChatSession
constructed = record { in_buf = []; phase = fresh; calls = []; log = [] }

unfoldable pub read_line : ChatSession → ChatSession
read_line s = record s { phase = reading }

unfoldable pub start_protocol : ChatSession → ChatSession
start_protocol s = read_line (record s { calls = s.calls ++ creates ∷ [] })

-- ec!=eof||n
unfoldable pub message : Error → ℕ → Log
message other n = failed_to_read
message eof zero = connection_closed
message eof (suc n) = failed_to_read

-- The handler of async_read_until, with the error, if there is one, and the number of bytes.
unfoldable pub line_read : Option Error → ℕ → ChatSession → ChatSession
line_read (some e) n s = record s { phase = ended; log = s.log ++ message e n ∷ [] }
line_read none n s =
    read_line
      (record s { calls = s.calls ++ passes (take n s.in_buf) ∷ []; in_buf = drop n s.in_buf })

abbrev pub destroyed : Phase → Phase
destroyed fresh = never_started
destroyed reading = gone
destroyed ended = gone
destroyed gone = gone
destroyed never_started = never_started

-- ~chat_session
unfoldable pub destroy : ChatSession → ChatSession
destroy s = record s { phase = destroyed s.phase; calls = s.calls ++ destroys ∷ [] }

-- What async_read_until has appended to the buffer, up to its limit.
unfoldable pub arrived : Bytes → ChatSession → ChatSession
arrived bytes s = record s { in_buf = s.in_buf ++ bytes }

-- No newline in it.
pub data Clean : Bytes → Type 0 where
  no_byte : Clean []
  one_byte : {b : ℕ} {bs : Bytes} → b ≢ newline → Clean bs → Clean (b ∷ bs)

-- A session that has received so many bytes. async_read_until ends with the number of bytes up to the first
-- newline and with it, which may come at once, or with an error; the session is destroyed when no operation
-- keeps it.
pub data History : Bytes → ChatSession → Type 0 where
  made : History [] constructed
  starts :
      {r : Bytes} {s : ChatSession} → History r s → s.phase ≡ fresh → History r (start_protocol s)
  reads :
      {r : Bytes} {s : ChatSession} (bytes : Bytes)
      → History r s
      → s.phase ≡ reading
      → length (s.in_buf ++ bytes) ≤ text_limit
      → History (r ++ bytes) (arrived bytes s)
  completes :
      {r : Bytes} {s : ChatSession} (line rest : Bytes)
      → History r s
      → s.phase ≡ reading
      → Clean line
      → s.in_buf ≡ line ++ (newline ∷ rest)
      → History r (line_read none (suc (length line)) s)
  fails :
      {r : Bytes} {s : ChatSession} (e : Error) (n : ℕ)
      → History r s
      → s.phase ≡ reading
      → History r (line_read (some e) n s)
  dies : {r : Bytes} {s : ChatSession} → History r s → s.phase ≡ ended → History r (destroy s)
  dies_unstarted :
      {r : Bytes} {s : ChatSession} → History r s → s.phase ≡ fresh → History r (destroy s)
