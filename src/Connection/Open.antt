-- ===== src/Connection/Open.antt =====
-- src/lib.rs: a stream that neither ends nor fails stays such a stream as it is read.
use wl_resprox.Prelude.{zero, suc, List, [], ◌∷◌, inl, inr, All, Option-cases}
use wl_resprox.Wire.Words.{Endian}
use wl_resprox.Relay.Session.{Conn}
use wl_resprox.Connection.Line.{
  Arrival, Line, chunk, would_block, failed, quiet, Filled, count, again, broken, waits, receive,
  fill, buffered, next_from,
}

-- Neither the end of the stream nor an error.
abbrev pub IsOpen : Arrival → Type 0
IsOpen (chunk [] fds) = ⊥
IsOpen (chunk (b ∷ bytes) fds) = Unit
IsOpen would_block = Unit
IsOpen failed = ⊥
IsOpen quiet = Unit

abbrev pub StaysOpen : Line → Type 0
StaysOpen line = All IsOpen line.arrivals

pub next_from-StaysOpen :
    (e : Endian) (arrivals : List Arrival) (c : Conn)
    → All IsOpen arrivals
    → StaysOpen (next_from e arrivals c).1
unfolding next_from receive
next_from-StaysOpen e [] c o = elim (Option-cases (buffered e c)) [
  | inl missing ↦ rw (missing, next_from) tt
  | inr ((header, msg, c'), b) ↦ rw (b, next_from) tt
]
next_from-StaysOpen e (chunk [] fds ∷ rest) c o = absurd o.0
next_from-StaysOpen e (chunk (x ∷ xs) fds ∷ rest) c o = elim (Option-cases (buffered e c)) [
  | inr ((header, msg, c'), b) ↦ rw (b, next_from) o
  | inl missing ↦ rw (missing, next_from) (next_from-StaysOpen e rest _ o.1)
]
next_from-StaysOpen e (would_block ∷ rest) c o = elim (Option-cases (buffered e c)) [
  | inr ((header, msg, c'), b) ↦ rw (b, next_from) o
  | inl missing ↦ rw (missing, next_from) (next_from-StaysOpen e rest c o.1)
]
next_from-StaysOpen e (failed ∷ rest) c o = absurd o.0
next_from-StaysOpen e (quiet ∷ rest) c o = elim (Option-cases (buffered e c)) [
  | inr ((header, msg, c'), b) ↦ rw (b, next_from) o
  | inl missing ↦ rw (missing, next_from) (o.1)
]

-- What a `fill` of such a stream gives: bytes, or nothing for now.
abbrev pub IsAlive : Filled → Type 0
IsAlive (count zero) = ⊥
IsAlive (count (suc n)) = Unit
IsAlive broken = ⊥
IsAlive again = Unit
IsAlive waits = Unit

pub fill-StaysOpen :
    (arrivals : List Arrival) (c : Conn)
    → All IsOpen arrivals
    → IsAlive (fill arrivals c).0 × StaysOpen (fill arrivals c).1
unfolding fill receive
fill-StaysOpen [] c o = (tt, tt)
fill-StaysOpen (chunk [] fds ∷ rest) c o = absurd o.0
fill-StaysOpen (chunk (x ∷ xs) fds ∷ rest) c o = (tt, o.1)
fill-StaysOpen (would_block ∷ rest) c o = fill-StaysOpen rest c o.1
fill-StaysOpen (failed ∷ rest) c o = absurd o.0
fill-StaysOpen (quiet ∷ rest) c o = (tt, o.1)
