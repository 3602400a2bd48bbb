-- ===== src/Recovery/Unfailing.antt =====
-- src/lib.rs: connections whose writes all succeed, in `recover_state_after_reconnect`.
use wl_resprox.Prelude.{ℕ, ◌≡◌, refl, true, List, [], ◌∷◌, some, arith, Option-cases, inl, inr}
use wl_resprox.Wire.Words.{Bytes, Endian}
use wl_resprox.Wire.Header.{MessageHeader}
use wl_resprox.Relay.Session.{Conn, write_message}
use wl_resprox.Connection.Line.{
  Line, Arrival, chunk, would_block, failed, quiet, receive, buffered, next_from, send,
}

-- A write to a connection whose writes all succeed succeeds, and the next will.
pub send-answers :
    (line : Line) (msg : Bytes) (fds : List ℕ)
    → line.conn.answers ≡ []
    → ((send line msg fds).0 ≡ true) × ((send line msg fds).1.conn.answers ≡ [])
unfolding send write_message
send-answers line msg fds h = rw (h, write_message) (refl, h)

module _ (e : Endian) where
  buffered-answers :
      (c c' : Conn) (header : MessageHeader) (msg : Bytes)
      → buffered e c ≡ some (header, msg, c')
      → c'.answers ≡ c.answers
  unfolding buffered
  buffered-answers c c' header msg h = ground arith

  receive-answers : (a : Arrival) (c : Conn) → (receive a c).1.answers ≡ c.answers
  unfolding receive
  receive-answers (chunk [] fds) c = refl
  receive-answers (chunk (x ∷ xs) fds) c = refl
  receive-answers would_block c = refl
  receive-answers failed c = refl
  receive-answers quiet c = refl

  pub next_from-answers :
      (arrivals : List Arrival) (c : Conn) → (next_from e arrivals c).1.conn.answers ≡ c.answers
  unfolding next_from
  next_from-answers [] c = elim (Option-cases (buffered e c)) [
    | inl missing ↦ rw (missing, next_from) refl
    | inr ((header, msg, c'), b) ↦ rw (b, next_from) (buffered-answers c c' header msg b)
  ]
  next_from-answers (a ∷ rest) c = elim (Option-cases (buffered e c)) [
    | inl missing ↦ ground (arith, receive-answers a c, next_from-answers rest (receive a c).1)
    | inr ((header, msg, c'), b) ↦ rw (b, next_from) (buffered-answers c c' header msg b)
  ]
