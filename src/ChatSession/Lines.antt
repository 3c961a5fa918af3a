-- ===== src/ChatSession/Lines.antt =====
-- asio-shared/src/chat_session.cpp: what a session has passed to the room.
use cosec_examples.Prelude.{
  suc, ◌≤◌, ◌<◌, ◌≡◌, refl, sym, ◌∙◌, ap, none, List, [], ◌∷◌, ◌++◌, map, append_assoc, length,
  length-append, take, drop, take-length, drop-length, length-drop, flatten, flatten-append,
  map-append, arith,
}
use cosec_examples.ChatSession.{
  destroyed, never_started, dies_unstarted, Bytes, text_limit, newline, Call, creates, destroys,
  passes, Phase, fresh, reading, ended, gone, ChatSession, read_line, start_protocol, line_read,
  destroy, arrived, Clean, History, made, starts, reads, completes, fails, dies,
}

-- Complete lines within the limit.
pub data Lines : List Bytes → Type 0 where
  no_line : Lines []
  line_after :
      {ls : List Bytes} (line : Bytes)
      → Lines ls
      → Clean line
      → length line < text_limit
      → Lines (ls ++ ((line ++ (newline ∷ [])) ∷ []))

-- The calls of a session that has passed some texts.
abbrev pub calls_of : Phase → List Bytes → List Call
calls_of fresh ls = []
calls_of reading ls = creates ∷ map passes ls
calls_of ended ls = creates ∷ map passes ls
calls_of never_started ls = destroys ∷ []
calls_of gone ls = (creates ∷ map passes ls) ++ (destroys ∷ [])

record Passed (received : Bytes) (s : ChatSession) : Type 0 where
  pub texts : List Bytes
  pub lines : Lines texts
  pub calls : s.calls ≡ calls_of s.phase texts
  pub bytes : received ≡ flatten texts ++ s.in_buf
  pub fits : length s.in_buf ≤ text_limit
  pub unread : s.phase ≡ fresh → texts ≡ []

completes-Passed :
    (received : Bytes) (s : ChatSession) (line rest : Bytes)
    → Passed received s
    → s.phase ≡ reading
    → Clean line
    → s.in_buf ≡ line ++ (newline ∷ rest)
    → Passed received (line_read none (suc (length line)) s)
unfolding line_read read_line
completes-Passed received s line rest h p clean e =
    let text = line ++ (newline ∷ []) in
    let whole : s.in_buf ≡ text ++ rest = e ∙ sym (append_assoc line (newline ∷ []) rest) in
    let n : suc (length line) ≡ length text = omega (arith, length-append line (newline ∷ [])) in
    let first : take (suc (length line)) s.in_buf ≡ text = rw (n, whole) (take-length text rest) in
    let left : drop (suc (length line)) s.in_buf ≡ rest = rw (n, whole) (drop-length text rest) in
    record {
      texts = h.texts ++ (text ∷ []);
      lines =
          line_after line h.lines clean
            (omega (arith, h.fits, ap length e, length-append line (newline ∷ rest)));
      calls =
          ap (λ t. s.calls ++ (passes t ∷ [])) first
          ∙ ap (λ c. c ++ (passes text ∷ [])) (h.calls ∙ ap (λ q. calls_of q h.texts) p)
          ∙ ap (λ c. creates ∷ c) (sym (map-append passes h.texts (text ∷ [])));
      bytes =
          h.bytes
          ∙ ap (λ b. flatten h.texts ++ b) whole
          ∙ sym (append_assoc (flatten h.texts) text rest)
          ∙ ap (λ b. b ++ rest) (sym (flatten-append h.texts text))
          ∙ ap (λ b. flatten (h.texts ++ (text ∷ [])) ++ b) (sym left);
      fits = omega (arith, h.fits, length-drop (suc (length line)) s.in_buf);
      unread = λ q. absurd (cc);
    }

-- What the session has received is the texts that it has passed to the room and what its buffer holds.
History-Passed : {received : Bytes} {s : ChatSession} → History received s → Passed received s
unfolding start_protocol read_line line_read destroy arrived flatten
History-Passed made = record {
  texts = [];
  lines = no_line;
  calls = refl;
  bytes = refl;
  fits = omega arith;
  unread = λ q. refl;
}
History-Passed (starts {r} {s} h p) =
    let v = History-Passed h in
    let none_yet = v.unread p in
    record {
      texts = v.texts;
      lines = v.lines;
      calls =
          ap (λ c. c ++ (creates ∷ [])) (v.calls ∙ ap (λ q. calls_of q v.texts) p)
          ∙ ap (λ ts. creates ∷ map passes ts) (sym none_yet);
      bytes = v.bytes;
      fits = v.fits;
      unread = λ q. none_yet;
    }
History-Passed (reads {r} {s} bytes h p few) =
    let v = History-Passed h in
    record {
      texts = v.texts;
      lines = v.lines;
      calls = v.calls;
      bytes = ap (λ b. b ++ bytes) v.bytes ∙ append_assoc (flatten v.texts) s.in_buf bytes;
      fits = few;
      unread = v.unread;
    }
History-Passed (completes {r} {s} line rest h p clean e) =
    completes-Passed r s line rest (History-Passed h) p clean e
History-Passed (fails {r} {s} e n h p) =
    let v = History-Passed h in
    record {
      texts = v.texts;
      lines = v.lines;
      calls = v.calls ∙ ap (λ q. calls_of q v.texts) p;
      bytes = v.bytes;
      fits = v.fits;
      unread = λ q. absurd (cc);
    }
History-Passed (dies {r} {s} h p) =
    let v = History-Passed h in
    let over : destroyed s.phase ≡ gone = ap destroyed p in
    record {
      texts = v.texts;
      lines = v.lines;
      calls =
          ap (λ c. c ++ (destroys ∷ [])) (v.calls ∙ ap (λ q. calls_of q v.texts) p)
          ∙ ap (λ q. calls_of q v.texts) (sym over);
      bytes = v.bytes;
      fits = v.fits;
      unread = λ q. absurd (cc);
    }
History-Passed (dies_unstarted {r} {s} h p) =
    let v = History-Passed h in
    let over : destroyed s.phase ≡ never_started = ap destroyed p in
    record {
      texts = v.texts;
      lines = v.lines;
      calls =
          ap (λ c. c ++ (destroys ∷ [])) (v.calls ∙ ap (λ q. calls_of q v.texts) p)
          ∙ ap (λ q. calls_of q v.texts) (sym over);
      bytes = v.bytes;
      fits = v.fits;
      unread = λ q. v.unread p;
    }

-- However the bytes arrive: a session that has started calls session_created of the room first, then
-- message_received for each of some texts, and session_destroyed last, once it is destroyed. Each text is a
-- line of no more than 1024 bytes, its newline included, and what has arrived is these texts one after the
-- other and what the buffer holds. One that is destroyed before it starts calls session_destroyed only.
pub History-Lines :
    (received : Bytes) (s : ChatSession)
    → History received s
    → (texts : List Bytes) × Lines texts
      × (s.calls ≡ calls_of s.phase texts)
      × (received ≡ flatten texts ++ s.in_buf)
History-Lines received s h = let v = History-Passed h in (v.texts, v.lines, v.calls, v.bytes)
