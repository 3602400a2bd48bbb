-- ===== src/Recovery/Descriptors.antt =====
-- src/lib.rs: descriptors during the waits of `recover_state_after_reconnect`.
use wl_resprox.Prelude.{
  ℕ, zero, suc, ◌≡◌, refl, sym, ◌∙◌, ap, Bool, true, false, List, [], ◌∷◌, ◌++◌, Option, some,
  arith, Bool-cases, Option-cases, inl, inr, drop,
}
use mathlib.Core.List.{append_assoc, append-nil}
use wl_resprox.Wire.Words.{Bytes, Endian}
use wl_resprox.Wire.Header.{MessageHeader, header_len, build_message}
use wl_resprox.Relay.Session.{World, Conn, write_message}
use wl_resprox.Connection.Line.{
  Line, Arrival, chunk, would_block, failed, quiet, Next, message, waits, receive, buffered,
  next_from, next_message, send,
}
use wl_resprox.Connection.Room.{room}
use wl_resprox.Recovery.State.{Recovery}
use wl_resprox.Recovery.Toplevel.{
  Waited, satisfied, gave_up, out_of_fuel, Awaited, is_from, pass_on, if_passed, on_configure,
  configure_after, await_configure, ack_after, await_ack, acknowledge, handshake,
}

-- The descriptors of what is still to come: those that come with bytes. The end of the stream has none.
unfoldable pub to_come : List Arrival → List ℕ
to_come [] = []
to_come (chunk [] fds ∷ rest) = to_come rest
to_come (chunk (b ∷ bytes) fds ∷ rest) = fds ++ to_come rest
to_come (_ ∷ rest) = to_come rest

-- From one state of a connection to a later one: the descriptors that waited still do, in their order,
-- and behind them, in their order, exactly those that have come since.
abbrev pub Queues : Line → Line → Type 0
Queues l m =
    (came : List ℕ) × ((m.conn.read_fds ≡ l.conn.read_fds ++ came)
      × (to_come l.arrivals ≡ came ++ to_come m.arrivals))

Queues-same :
    (l m : Line)
    → m.conn.read_fds ≡ l.conn.read_fds
    → to_come m.arrivals ≡ to_come l.arrivals
    → Queues l m
Queues-same l m fds rest = ([], (fds ∙ sym (append-nil l.conn.read_fds), sym rest))

Queues-trans : (l m n : Line) → Queues l m → Queues m n → Queues l n
Queues-trans l m n (x, (p, p')) (y, (q, q')) = (
  x ++ y,
  (
    q ∙ ap (λ v. v ++ y) p ∙ append_assoc l.conn.read_fds x y,
    p' ∙ ap (λ v. x ++ v) q' ∙ sym (append_assoc x y (to_come n.arrivals)),
  ),
)

buffered-read_fds :
    (e : Endian) (c c' : Conn) (header : MessageHeader) (msg : Bytes)
    → buffered e c ≡ some (header, msg, c')
    → c'.read_fds ≡ c.read_fds
unfolding buffered
buffered-read_fds e c c' header msg h = ground arith

send-Queues : (line : Line) (msg : Bytes) (fds : List ℕ) → Queues line (send line msg fds).1
unfolding send write_message
send-Queues line msg fds = Queues-same line (send line msg fds).1 (ground arith) (ground arith)

abbrev line_of : Conn → List Arrival → Line
line_of c arrivals = record { conn = c; arrivals = arrivals }

next_from-Queues :
    (e : Endian) (arrivals : List Arrival) (c : Conn)
    → Queues (line_of c arrivals) (next_from e arrivals c).1
unfolding next_from receive to_come
next_from-Queues e [] c = elim (Option-cases (buffered e c)) [
  | inl missing ↦ rw (missing, next_from) (Queues-same (line_of c []) (line_of c []) refl refl)
  | inr ((header, msg, c'), b) ↦
      rw (b, next_from)
        (Queues-same (line_of c []) (line_of c' []) (buffered-read_fds e c c' header msg b) refl)
]
next_from-Queues e (a ∷ rest) c = elim (Option-cases (buffered e c)) [
  | inr ((header, msg, c'), b) ↦
      rw (b, next_from)
        (Queues-same (line_of c (a ∷ rest)) (line_of c' (a ∷ rest))
          (buffered-read_fds e c c' header msg b) refl)
  | inl missing ↦
      elim a as (λ (v : Arrival). Queues (line_of c (v ∷ rest)) (next_from e (v ∷ rest) c).1) [
        | chunk bytes fds ↦
            elim bytes
              as (λ (v : Bytes).
                Queues (line_of c (chunk v fds ∷ rest)) (next_from e (chunk v fds ∷ rest) c).1) [
                  | [] ↦
                      rw (missing, next_from)
                        (Queues-same (line_of c (chunk [] fds ∷ rest)) (line_of c rest) refl refl)
                  | x ∷ xs ↦
                      let more : Conn = (receive (chunk (x ∷ xs) fds) c).1 in
                      rw (missing, next_from)
                        (Queues-trans (line_of c (chunk (x ∷ xs) fds ∷ rest)) (line_of more rest)
                          (next_from e rest more).1 (fds, (refl, refl))
                          (next_from-Queues e rest more))
                ]
        | would_block ↦ rw (missing, next_from) (next_from-Queues e rest c)
        | failed ↦
            rw (missing, next_from)
              (Queues-same (line_of c (failed ∷ rest)) (line_of c rest) refl refl)
        | quiet ↦
            rw (missing, next_from)
              (Queues-same (line_of c (quiet ∷ rest)) (line_of c rest) refl refl)
      ]
]

module _ {B I : Type 0} (W : World B I) where
  -- On the compositor's connection.
  abbrev HostQueues : Recovery B I → Recovery B I → Type 0
  HostQueues s t = Queues s.host t.host

  same_host : (s : Recovery B I) → HostQueues s s
  same_host s = Queues-same s.host s.host refl refl

  if_passed-Queues :
      (s t : Recovery B I) (ok : Bool) (x : Waited × Recovery B I)
      → HostQueues s t
      → HostQueues s x.1
      → HostQueues s (if_passed W (ok, t) x).1
  unfolding if_passed
  if_passed-Queues s t true x st sx = sx
  if_passed-Queues s t false x st sx = st

  on_configure-Queues :
      (go_on : Recovery B I → Waited × Recovery B I) (a : Awaited) (header : MessageHeader)
      (msg : Bytes) (s : Recovery B I)
      → ((t : Recovery B I) → HostQueues t (go_on t).1)
      → HostQueues s (on_configure W go_on a header msg s).1
  unfolding on_configure
  on_configure-Queues go_on a header msg s ih =
      let same = same_host s in
      elim (Bool-cases (is_from a.toplevel_host a.toplevel_configure header)) [
        | inl top ↦ rw (top, on_configure) (if_passed-Queues s _ _ _ same (ih _))
        | inr other ↦ elim (Bool-cases (is_from a.parent_host a.parent_configure header)) [
          | inl parent ↦ rw (other, parent, on_configure) (if_passed-Queues s _ _ _ same same)
          | inr neither ↦ rw (other, neither, on_configure) (ih s)
        ]
      ]

  configure_after-Queues :
      (go_on : Recovery B I → Waited × Recovery B I) (a : Awaited) (s : Recovery B I)
      (x : Next × Line)
      → ((t : Recovery B I) → HostQueues t (go_on t).1)
      → Queues s.host x.1
      → HostQueues s (configure_after W go_on a s x).1
  unfolding configure_after
  configure_after-Queues go_on a s (message header msg, host) ih came =
      Queues-trans s.host host (on_configure W go_on a header msg (record s { host = host })).1.host
        came (on_configure-Queues go_on a header msg (record s { host = host }) ih)
  configure_after-Queues go_on a s (failed, host) ih came = came
  configure_after-Queues go_on a s (waits, host) ih came = came

  await_configure-Queues :
      (fuel : ℕ) (a : Awaited) (s : Recovery B I) → HostQueues s (await_configure W fuel a s).1
  unfolding await_configure next_message
  await_configure-Queues zero a s = same_host s
  await_configure-Queues (suc fuel) a s =
      configure_after-Queues (await_configure W fuel a) a s (next_message W.endian s.host)
        (await_configure-Queues fuel a) (next_from-Queues W.endian s.host.arrivals s.host.conn)

  ack_after-Queues :
      (go_on : Recovery B I → Waited × Recovery B I) (a : Awaited) (opcode : Option ℕ)
      (s : Recovery B I) (x : Next × Line)
      → ((t : Recovery B I) → HostQueues t (go_on t).1)
      → HostQueues s (ack_after W go_on a opcode s x).1
  unfolding ack_after pass_on
  ack_after-Queues go_on a opcode s (message header msg, gtk) ih =
      let ack : Bytes = build_message W.endian a.parent_host header.opcode (drop header_len msg) in
      let told = send-Queues s.host ack [] in
      elim (Bool-cases (is_from a.parent_guest opcode header)) [
        | inl acked ↦ rw (acked, ack_after) (if_passed-Queues s _ _ _ told told)
        | inr other ↦ rw (other, ack_after) (ih (record s { gtk = gtk }))
      ]
  ack_after-Queues go_on a opcode s (failed, gtk) ih = same_host s
  ack_after-Queues go_on a opcode s (waits, gtk) ih = same_host s

  await_ack-Queues :
      (fuel : ℕ) (a : Awaited) (opcode : Option ℕ) (s : Recovery B I)
      → HostQueues s (await_ack W fuel a opcode s).1
  unfolding await_ack
  await_ack-Queues zero a opcode s = same_host s
  await_ack-Queues (suc fuel) a opcode s =
      ack_after-Queues (await_ack W fuel a opcode) a opcode s (next_message W.endian s.gtk)
        (await_ack-Queues fuel a opcode)

  acknowledge-Queues :
      (a : Awaited) (opcode : Option ℕ) (s : Recovery B I) (x : Waited × Recovery B I)
      → HostQueues s x.1
      → HostQueues s (acknowledge W a opcode x).1
  unfolding acknowledge
  acknowledge-Queues a opcode s (satisfied, t) q =
      Queues-trans s.host t.host (await_ack W (suc (room t.gtk)) a opcode t).1.host q
        (await_ack-Queues (suc (room t.gtk)) a opcode t)
  acknowledge-Queues a opcode s (gave_up, t) q = q
  acknowledge-Queues a opcode s (out_of_fuel, t) q = q

  -- The handshake for a recreated toplevel takes no descriptor off the compositor's connection and
  -- loses none: those that waited before it still do, in their order, and behind them, in their order,
  -- exactly those that came with bytes during it, also those of the messages that it dropped.
  pub handshake-read_fds :
      (a : Awaited) (opcode : Option ℕ) (s : Recovery B I)
      → (came : List ℕ) × (((handshake W a opcode s).1.host.conn.read_fds
            ≡ s.host.conn.read_fds ++ came)
          × (to_come s.host.arrivals ≡ came ++ to_come (handshake W a opcode s).1.host.arrivals))
  unfolding handshake
  handshake-read_fds a opcode s =
      acknowledge-Queues a opcode s (await_configure W (suc (room s.host)) a s)
        (await_configure-Queues (suc (room s.host)) a s)
