-- ===== src/ChatSession/Tests.antt =====
-- asio-shared/src/chat_session.cpp: "hi" arrives in two pieces, with the start of another line.
use cosec_examples.Prelude.{◌≡◌, refl, none, List, [], ◌∷◌, ◌++◌, flatten, arith}
use cosec_examples.ChatSession.{
  Bytes, newline, constructed, ChatSession, start_protocol, read_line, line_read, arrived, no_byte,
  one_byte, History, made, starts, reads, completes,
}
use cosec_examples.ChatSession.Lines.{Lines, calls_of, History-Lines}

abbrev two_pieces : ChatSession
two_pieces = arrived (b'i' ∷ newline ∷ b'y' ∷ []) (arrived (b'h' ∷ []) (start_protocol constructed))

two_pieces-History : History (([] ++ (b'h' ∷ [])) ++ (b'i' ∷ newline ∷ b'y' ∷ [])) two_pieces
unfolding arrived start_protocol read_line
two_pieces-History =
    reads (b'i' ∷ newline ∷ b'y' ∷ []) (reads (b'h' ∷ []) (starts made refl) refl (omega arith))
      refl (omega arith)

History-Lines_example :
    (texts : List Bytes) × Lines texts
    × ((line_read none 3 two_pieces).calls ≡ calls_of (line_read none 3 two_pieces).phase texts)
    × ((b'h' ∷ b'i' ∷ newline ∷ b'y' ∷ []) ≡ flatten texts ++ (line_read none 3 two_pieces).in_buf)
unfolding arrived start_protocol read_line
History-Lines_example =
    History-Lines (b'h' ∷ b'i' ∷ newline ∷ b'y' ∷ []) (line_read none 3 two_pieces) (
      completes (b'h' ∷ b'i' ∷ []) (b'y' ∷ []) two_pieces-History refl
        (one_byte (omega arith) (one_byte (omega arith) no_byte)) refl)
