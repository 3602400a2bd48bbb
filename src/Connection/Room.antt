-- ===== src/Connection/Room.antt =====
-- src/lib.rs: `next_message` uses up what arrives.
use wl_resprox.Prelude.{
  ℕ, suc, ◌+◌, ◌<◌, ◌≤◌, ◌≡◌, refl, List, [], ◌∷◌, ◌++◌, ◌⊎◌, inl, inr, some, length, arith,
  Option-cases, length-append, length-drop,
}
use wl_resprox.Wire.Words.{Bytes, Endian}
use wl_resprox.Wire.Header.{MessageHeader, parse, take_message, take_message_prefix}
use wl_resprox.Relay.Session.{Conn}
use wl_resprox.Connection.Line.{
  Arrival, Line, chunk, would_block, failed, quiet, Next, waits, receive, buffered, next_from,
  next_message,
}

-- Bytes buffered and to come, and arrivals.
unfoldable pub weight : List Arrival → ℕ
weight [] = 0
weight (chunk bytes fds ∷ rest) = suc (length bytes + weight rest)
weight (would_block ∷ rest) = suc (weight rest)
weight (failed ∷ rest) = suc (weight rest)
weight (quiet ∷ rest) = suc (weight rest)

unfoldable pub room : Line → ℕ
unfolding weight
room line = length line.conn.read_buf + weight line.arrivals

module _ (e : Endian) where
  buffered-length :
      (c c' : Conn) (header : MessageHeader) (msg : Bytes)
      → buffered e c ≡ some (header, msg, c')
      → length c'.read_buf < length c.read_buf
  unfolding buffered
  buffered-length c c' header msg h = elim (Option-cases (take_message e c.read_buf)) [
    | inl missing ↦ absurd (ground arith)
    | inr ((m, n), t) ↦
        let (prefix, length', enough, fits) = take_message_prefix e c.read_buf m n t in
        elim (Option-cases (parse e m)) [
          | inl bad ↦ absurd (ground arith)
          | inr (hd, p) ↦ let dropped = length-drop {0} n c.read_buf in ground arith
        ]
  ]

  -- Something is used up, or nothing is left to come.
  abbrev pub Uses : Next × Line → ℕ → Type 0
  Uses (next, line) before = (room line < before) ⊎ ((next ≡ waits) × (line.arrivals ≡ []))

  -- A message in the buffer is used up.
  at_hand :
      (arrivals : List Arrival) (c c' : Conn) (header : MessageHeader) (msg : Bytes)
      → buffered e c ≡ some (header, msg, c')
      → Uses (next_from e arrivals c) (room (record { conn = c; arrivals = arrivals }))
  unfolding next_from room weight
  at_hand [] c c' header msg b =
      let less = buffered-length c c' header msg b in rw (b, next_from) (inl (omega arith))
  at_hand (a ∷ rest) c c' header msg b =
      let less = buffered-length c c' header msg b in rw (b, next_from) (inl (omega arith))

  Uses-more : (x : Next × Line) (n m : ℕ) → n ≤ m → Uses x n → Uses x m
  Uses-more x n m h (inl less) = inl (omega arith)
  Uses-more x n m h (inr ended) = inr ended

  next_from-room :
      (arrivals : List Arrival) (c : Conn)
      → Uses (next_from e arrivals c) (room (record { conn = c; arrivals = arrivals }))
  unfolding next_from receive room weight
  next_from-room [] c = elim (Option-cases (buffered e c)) [
    | inr ((header, msg, c'), b) ↦ at_hand [] c c' header msg b
    | inl missing ↦ rw (missing, next_from) (inr (refl, refl))
  ]
  next_from-room (chunk [] fds ∷ rest) c = elim (Option-cases (buffered e c)) [
    | inr ((header, msg, c'), b) ↦ at_hand (chunk [] fds ∷ rest) c c' header msg b
    | inl missing ↦ rw (missing, next_from) (inl (omega arith))
  ]
  next_from-room (chunk (x ∷ xs) fds ∷ rest) c = elim (Option-cases (buffered e c)) [
    | inr ((header, msg, c'), b) ↦ at_hand (chunk (x ∷ xs) fds ∷ rest) c c' header msg b
    | inl missing ↦
        rw (missing, next_from)
          (let c' : Conn = record c {
            read_buf = c.read_buf ++ x ∷ xs;
            read_fds = c.read_fds ++ fds;
          } in
            Uses-more (next_from e rest c') (room (record { conn = c'; arrivals = rest }))
              (room (record { conn = c; arrivals = chunk (x ∷ xs) fds ∷ rest }))
              (omega (arith, length-append {0} c.read_buf (x ∷ xs))) (next_from-room rest c'))
  ]
  next_from-room (would_block ∷ rest) c = elim (Option-cases (buffered e c)) [
    | inr ((header, msg, c'), b) ↦ at_hand (would_block ∷ rest) c c' header msg b
    | inl missing ↦
        rw (missing, next_from)
          (Uses-more (next_from e rest c) (room (record { conn = c; arrivals = rest }))
            (room (record { conn = c; arrivals = would_block ∷ rest })) (omega arith)
            (next_from-room rest c))
  ]
  next_from-room (failed ∷ rest) c = elim (Option-cases (buffered e c)) [
    | inr ((header, msg, c'), b) ↦ at_hand (failed ∷ rest) c c' header msg b
    | inl missing ↦ rw (missing, next_from) (inl (omega arith))
  ]
  next_from-room (quiet ∷ rest) c = elim (Option-cases (buffered e c)) [
    | inr ((header, msg, c'), b) ↦ at_hand (quiet ∷ rest) c c' header msg b
    | inl missing ↦ rw (missing, next_from) (inl (omega arith))
  ]

  pub next_message-room : (line : Line) → Uses (next_message e line) (room line)
  unfolding next_message
  next_message-room line = next_from-room line.arrivals line.conn
