-- ===== src/Connection/Line.antt =====
-- src/lib.rs: `Conn::fill` and `next_message`, over what arrives on a connection.
use wl_resprox.Prelude.{Bool, ℕ, zero, suc, List, [], ◌∷◌, ◌++◌, Option, none, some, length, drop}
use wl_resprox.Wire.Words.{Bytes, Endian}
use wl_resprox.Wire.Header.{MessageHeader, parse, take_message}
use wl_resprox.Relay.Capture.{◌>>=◌}
use wl_resprox.Relay.Session.{Conn, write_message}

-- What one `recv_with_fds` gives: bytes, none at the end of the stream, and descriptors; that it would
-- block; an error. `quiet` is a time without an arrival, as long as the longest wait.
pub data Arrival : Type 0 where
  chunk : Bytes → List ℕ → Arrival
  would_block failed quiet : Arrival

-- A connection and what arrives on it from now on.
pub record Line : Type 0 where
  pub conn : Conn
  pub arrivals : List Arrival

-- `count 0` is the end of the stream; `waits` is no answer.
pub data Filled : Type 0 where
  count : ℕ → Filled
  again broken waits : Filled

-- One call of `recv_with_fds`: the end of the stream takes no descriptors.
unfoldable pub receive : Arrival → Conn → Filled × Conn
receive (chunk [] fds) c = (count 0, c)
receive (chunk (b ∷ bytes) fds) c = (
  count (length (b ∷ bytes)),
  record c { read_buf = c.read_buf ++ b ∷ bytes; read_fds = c.read_fds ++ fds },
)
receive would_block c = (again, c)
receive failed c = (broken, c)
receive quiet c = (waits, c)

-- The loop of `fill`, which tries anew on `WouldBlock`.
unfoldable pub fill : List Arrival → Conn → Filled × Line
unfolding receive
fill [] c = (waits, record { conn = c; arrivals = [] })
fill (a ∷ rest) c =
    let (got, c') = receive a c in
    elim got [ again ↦ fill rest c' | result ↦ (result, record { conn = c'; arrivals = rest }) ]

pub data Next : Type 0 where
  message : MessageHeader → Bytes → Next
  failed waits : Next

-- The message at the front of the buffer, taken off it.
unfoldable pub buffered : Endian → Conn → Option (MessageHeader × Bytes × Conn)
unfolding take_message parse
buffered e c = do
  (msg, consumed) ← take_message e c.read_buf
  header ← parse e msg
  some (header, msg, record c { read_buf = drop consumed c.read_buf })

-- The loop of `next_message`, with the loop of `fill` within it: a message in the buffer goes first.
unfoldable pub next_from : Endian → List Arrival → Conn → Next × Line
unfolding buffered receive
next_from e [] c = elim (buffered e c) [
  | some (header, msg, c') ↦ (message header msg, record { conn = c'; arrivals = [] })
  | none ↦ (waits, record { conn = c; arrivals = [] })
]
next_from e (a ∷ rest) c = elim (buffered e c) [
  | some (header, msg, c') ↦ (message header msg, record { conn = c'; arrivals = a ∷ rest })
  | none ↦
      let (got, c') = receive a c in
      elim got [
        | count zero ↦ (failed, record { conn = c'; arrivals = rest })
        | count (suc n) ↦ next_from e rest c'
        | again ↦ next_from e rest c'
        | broken ↦ (failed, record { conn = c'; arrivals = rest })
        | waits ↦ (waits, record { conn = c'; arrivals = rest })
      ]
]

unfoldable pub next_message : Endian → Line → Next × Line
unfolding next_from
next_message e line = next_from e line.arrivals line.conn

unfoldable pub send : Line → Bytes → List ℕ → Bool × Line
unfolding write_message
send line msg fds =
    let (ok, conn') = write_message line.conn msg fds in (ok, record line { conn = conn' })
