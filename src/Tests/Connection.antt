-- ===== src/Tests/Connection.antt =====
-- src/lib.rs: connections and their loop, at concrete inputs.
use wl_resprox.Prelude.{◌≡◌, refl, arith, ◌++◌, List, [], ◌∷◌, some, drop, take}
use wl_resprox.Wire.Words.{Bytes, little}
use wl_resprox.Wire.Header.{MessageHeader, parse, take_message}
use wl_resprox.Connection.Send.{
  Taken, accepted, would_block, write_calls, sent_bytes, sent_fds, write_calls-whole,
}
use wl_resprox.Connection.Line.{Line, chunk, message, next_message}
use wl_resprox.Connection.Line
use wl_resprox.Connection.Stream.{pending, next_message-stream}
use wl_resprox.Tests.Fixtures.{frame_msg}

-- Two bytes, a full socket, and then the rest.
abbrev answers : List Taken
answers = accepted 2 ∷ would_block ∷ accepted 9 ∷ []

abbrev four_bytes : Bytes
four_bytes = 1 ∷ 2 ∷ 3 ∷ 4 ∷ []

write_calls-whole_example :
    (sent_bytes (write_calls answers four_bytes (7 ∷ [])).1 ≡ four_bytes)
    × (sent_fds (write_calls answers four_bytes (7 ∷ [])).1 ≡ 7 ∷ [])
unfolding write_calls
write_calls-whole_example =
    write_calls-whole answers four_bytes (7 ∷ []) (omega arith, (tt, (omega arith, tt)))
      (omega arith) refl

-- A message in two pieces, with five bytes of the next.
abbrev torn : Line
torn = record {
  conn = record { read_buf = take 5 frame_msg; read_fds = []; sent = []; answers = [] };
  arrivals =
      Line.would_block
      ∷ chunk (drop 5 frame_msg ++ four_bytes) []
      ∷ Line.would_block
      ∷ chunk (9 ∷ []) []
      ∷ [];
}

next_message-stream_example :
    (header : MessageHeader) × (parse little frame_msg ≡ some header)
    × ((next_message little torn).0 ≡ message header frame_msg)
    × (pending (next_message little torn).1 ≡ drop 12 (pending torn))
unfolding take_message pending wl_resprox.Wire.Header.build_message
next_message-stream_example = next_message-stream little torn frame_msg 12 refl
