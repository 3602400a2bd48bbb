-- ===== src/Connection/Stream.antt =====
-- src/lib.rs: `next_message` against `take_message` on all that arrives.
use wl_resprox.Prelude.{
  ℕ, zero, suc, ◌≤◌, ◌≡◌, refl, sym, ap, ◌∙◌, List, [], ◌∷◌, ◌++◌, none, some, length, take, drop,
  arith, Option-cases, inl, inr, length-append,
}
use mathlib.Core.List.{append_assoc, append-nil}
use wl_resprox.Wire.Words.{Bytes, Endian}
use wl_resprox.Wire.Header.{MessageHeader, parse, take_message, take_message_prefix}
use wl_resprox.Relay.Session.{Conn}
use wl_resprox.Connection.Line.{
  Arrival, Line, chunk, would_block, failed, quiet, Next, message, receive, buffered, next_from,
  next_message,
}

-- The bytes that arrive before the stream ends, fails or goes quiet.
unfoldable pub stream_of : List Arrival → Bytes
stream_of [] = []
stream_of (chunk [] fds ∷ rest) = []
stream_of (chunk (b ∷ bytes) fds ∷ rest) = (b ∷ bytes) ++ stream_of rest
stream_of (would_block ∷ rest) = stream_of rest
stream_of (failed ∷ rest) = []
stream_of (quiet ∷ rest) = []

-- What is buffered, and what is to come.
unfoldable pub pending : Line → Bytes
unfolding stream_of
pending line = line.conn.read_buf ++ stream_of line.arrivals

take_append {ℓ} :
    {A : Type ℓ} (n : ℕ) (xs ys : List A) → n ≤ length xs → take n (xs ++ ys) ≡ take n xs
take_append zero xs ys h = refl
take_append (suc n) [] ys h = absurd (omega arith)
take_append (suc n) (x ∷ xs) ys h = ap (◌∷◌ x) (take_append n xs ys (omega arith))

drop_append {ℓ} :
    {A : Type ℓ} (n : ℕ) (xs ys : List A) → n ≤ length xs → drop n (xs ++ ys) ≡ drop n xs ++ ys
drop_append zero xs ys h = refl
drop_append (suc n) [] ys h = absurd (omega arith)
drop_append (suc n) (x ∷ xs) ys h = drop_append n xs ys (omega arith)

parse_long :
    (e : Endian) (m : Bytes) → 8 ≤ length m → (header : MessageHeader) × (parse e m ≡ some header)
unfolding parse
parse_long e [] h = absurd (omega arith)
parse_long e (a ∷ []) h = absurd (omega arith)
parse_long e (a ∷ b ∷ []) h = absurd (omega arith)
parse_long e (a ∷ b ∷ c ∷ []) h = absurd (omega arith)
parse_long e (a ∷ b ∷ c ∷ d ∷ []) h = absurd (omega arith)
parse_long e (a ∷ b ∷ c ∷ d ∷ x ∷ []) h = absurd (omega arith)
parse_long e (a ∷ b ∷ c ∷ d ∷ x ∷ y ∷ []) h = absurd (omega arith)
parse_long e (a ∷ b ∷ c ∷ d ∷ x ∷ y ∷ z ∷ []) h = absurd (omega arith)
parse_long e (a ∷ b ∷ c ∷ d ∷ x ∷ y ∷ z ∷ w ∷ m) h = (_, refl)

parse_append :
    (e : Endian) (m more : Bytes) (header : MessageHeader)
    → parse e m ≡ some header
    → parse e (m ++ more) ≡ some header
unfolding parse
parse_append e [] more h p = cc
parse_append e (a ∷ []) more h p = cc
parse_append e (a ∷ b ∷ []) more h p = cc
parse_append e (a ∷ b ∷ c ∷ []) more h p = cc
parse_append e (a ∷ b ∷ c ∷ d ∷ []) more h p = cc
parse_append e (a ∷ b ∷ c ∷ d ∷ x ∷ []) more h p = cc
parse_append e (a ∷ b ∷ c ∷ d ∷ x ∷ y ∷ []) more h p = cc
parse_append e (a ∷ b ∷ c ∷ d ∷ x ∷ y ∷ z ∷ []) more h p = cc
parse_append e (a ∷ b ∷ c ∷ d ∷ x ∷ y ∷ z ∷ w ∷ m) more h p = p

-- A complete message stays what it is when more arrives behind it.
take_message-append :
    (e : Endian) (buf more msg : Bytes) (len : ℕ)
    → take_message e buf ≡ some (msg, len)
    → take_message e (buf ++ more) ≡ some (msg, len)
unfolding take_message
take_message-append e buf more msg len h = elim (Option-cases (parse e buf)) [
  | inl missing ↦ ground arith
  | inr (header, p) ↦
      let appended = parse_append e buf more header p in
      ground (arith, length-append {0} buf more, take_append {0} len buf more)
]

-- A message that `take_message` finds in the buffer is taken off it.
buffered-take_message :
    (e : Endian) (c : Conn) (msg : Bytes) (len : ℕ)
    → take_message e c.read_buf ≡ some (msg, len)
    → (header : MessageHeader) × (parse e msg ≡ some header)
      × (buffered e c ≡ some (header, msg, record c { read_buf = drop len c.read_buf }))
unfolding buffered
buffered-take_message e c msg len h =
    let (prefix, length', enough, fits) = take_message_prefix e c.read_buf msg len h in
    let (header, p) = parse_long e msg (omega arith) in (header, p, rw (h, p) refl)

-- That a connection gives this message and keeps `rest` of what it has and what is to come.
abbrev Gives : Next × Line → MessageHeader → Bytes → Bytes → Type 0
Gives (next, line) header msg rest = (next ≡ message header msg) × (pending line ≡ rest)

module _ (e : Endian) where
  -- Nothing in the buffer: no message.
  unbuffered : (c : Conn) → take_message e c.read_buf ≡ none → buffered e c ≡ none
  unfolding buffered
  unbuffered c h = rw h refl

  abbrev Target : List Arrival → Conn → Bytes → ℕ → Type 0
  Target arrivals c msg len =
      (header : MessageHeader) × (parse e msg ≡ some header)
      × Gives (next_from e arrivals c) header msg (drop len (c.read_buf ++ stream_of arrivals))

  -- A whole message in the buffer is given at once.
  at_once :
      (arrivals : List Arrival) (c : Conn) (msg found : Bytes) (len n : ℕ)
      → take_message e (c.read_buf ++ stream_of arrivals) ≡ some (msg, len)
      → take_message e c.read_buf ≡ some (found, n)
      → Target arrivals c msg len
  unfolding next_from pending
  at_once arrivals c msg found len n h b =
      let appended = take_message-append e c.read_buf (stream_of arrivals) found n b in
      let same : some (msg, len) ≡ some (found, n) = sym h ∙ appended in
      let b' : take_message e c.read_buf ≡ some (msg, len) = b ∙ sym same in
      let (header, p, taken) = buffered-take_message e c msg len b' in
      let (prefix, length', enough, fits) = take_message_prefix e c.read_buf msg len b' in
      elim arrivals as (λ (l : List Arrival). Target l c msg len) [
        | [] ↦ (header, p, rw (taken, next_from) (refl, sym (drop_append len c.read_buf [] fits)))
        | a ∷ rest ↦ (
          header,
          p,
          rw (taken, next_from)
              (refl, sym (drop_append len c.read_buf (stream_of (a ∷ rest)) fits)),
        )
      ]

  -- The same if nothing more comes.
  at_last :
      (arrivals : List Arrival) (c : Conn) (msg : Bytes) (len : ℕ)
      → stream_of arrivals ≡ []
      → take_message e (c.read_buf ++ stream_of arrivals) ≡ some (msg, len)
      → Target arrivals c msg len
  at_last arrivals c msg len ended h = elim (Option-cases (take_message e c.read_buf)) [
    | inr ((found, n), b) ↦ at_once arrivals c msg found len n h b
    | inl missing ↦
        let empty : take_message e c.read_buf ≡ some (msg, len) =
          sym (ap (take_message e) (ap (λ x. c.read_buf ++ x) ended ∙ append-nil c.read_buf)) ∙ h in
        absurd (cc)
  ]

  next_from-stream :
      (arrivals : List Arrival) (c : Conn) (msg : Bytes) (len : ℕ)
      → take_message e (c.read_buf ++ stream_of arrivals) ≡ some (msg, len)
      → Target arrivals c msg len
  unfolding next_from receive stream_of
  next_from-stream [] c msg len h = at_last [] c msg len refl h
  next_from-stream (chunk [] fds ∷ rest) c msg len h =
      at_last (chunk [] fds ∷ rest) c msg len refl h
  next_from-stream (chunk (x ∷ xs) fds ∷ rest) c msg len h =
      elim (Option-cases (take_message e c.read_buf)) [
        | inr ((found, n), b) ↦ at_once (chunk (x ∷ xs) fds ∷ rest) c msg found len n h b
        | inl none' ↦
            let c' : Conn = record c {
              read_buf = c.read_buf ++ x ∷ xs;
              read_fds = c.read_fds ++ fds;
            } in
            let assoc = append_assoc c.read_buf (x ∷ xs) (stream_of rest) in
            let (header, p, given) =
              next_from-stream rest c' msg len (ap (take_message e) assoc ∙ h) in
            (header, p, rw (unbuffered c none', next_from) (given.0, given.1 ∙ ap (drop len) assoc))
      ]
  next_from-stream (would_block ∷ rest) c msg len h =
      elim (Option-cases (take_message e c.read_buf)) [
        | inr ((found, n), b) ↦ at_once (would_block ∷ rest) c msg found len n h b
        | inl none' ↦
            let (header, p, given) = next_from-stream rest c msg len h in
            (header, p, rw (unbuffered c none', next_from) given)
      ]
  next_from-stream (failed ∷ rest) c msg len h = at_last (failed ∷ rest) c msg len refl h
  next_from-stream (quiet ∷ rest) c msg len h = at_last (quiet ∷ rest) c msg len refl h

  -- If the bytes in the buffer, followed by those that arrive before the stream ends, fails or goes
  -- quiet, start with a message that take_message splits off, then next_message gives that message
  -- with its header, however the bytes are cut into arrivals, and leaves the bytes behind it.
  pub next_message-stream :
      (line : Line) (msg : Bytes) (len : ℕ)
      → take_message e (pending line) ≡ some (msg, len)
      → (header : MessageHeader) × (parse e msg ≡ some header)
        × ((next_message e line).0 ≡ message header msg)
        × (pending (next_message e line).1 ≡ drop len (pending line))
  unfolding next_message pending
  next_message-stream line msg len h =
      let (header, p, given) = next_from-stream line.arrivals line.conn msg len h in
      (header, p, given.0, given.1)
