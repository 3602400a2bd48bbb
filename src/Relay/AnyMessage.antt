-- ===== src/Relay/AnyMessage.antt =====
-- src/lib.rs: what becomes of any message, those of the proxy's own data source included.
use wl_resprox.Prelude.{
  ℕ, ◌≡◌, inl, inr, refl, sym, ap, ◌∙◌, true, false, List, [], ◌∷◌, Option, none, some,
  if◌then◌else◌, arith, drop, ◌==◌,
}
use wl_resprox.Wire.Words.{Bytes}
use wl_resprox.Wire.Header.{MessageHeader, header_len, parse}
use wl_resprox.Wire.Walk.{ok, err, walk_signature}
use wl_resprox.Protocol.{MessageDesc}
use wl_resprox.Relay.Session.{World, Session, Direction}
use wl_resprox.Relay.Splice.{serve_mime, serve_from, handle_synthetic_clipboard_event}
use wl_resprox.Wire.Text.{read_str}
use wl_resprox.Relay.Forward.{
  Outcome, relayed, dropped_frozen, dropped_unknown, dropped_parse_error, synthetic_clipboard,
}
use wl_resprox.Relay.Process.{
  incoming, relay_walked, relay_known, relay_parsed, relay_message, lookup_desc, is_synthetic,
}
use wl_resprox.Relay.Queue.{Inputs, inputs}
use wl_resprox.Relay.Delivery.{Sent, SentBy}
use wl_resprox.Relay.Descriptors.{relay_walked-Sent}

-- Some number of descriptors.
abbrev pub SomeSent : Inputs → Outcome → Inputs → Type 0
SomeSent a o b = (n : ℕ) × Sent n a o b

pub SomeSent-read_buf : (o : Outcome) (a b : Inputs) → SomeSent a o b → b.0.0 ≡ a.0.0
unfolding Sent
SomeSent-read_buf relayed a b (n, h) = h.0
SomeSent-read_buf dropped_frozen a b (n, h) = h.0
SomeSent-read_buf synthetic_clipboard a b (n, h) = h.0
SomeSent-read_buf _ a b (n, h) = ap (λ (i : Inputs). i.0.0) h

module _ {B I : Type 0} (W : World B I) where
  inputs-serve_mime :
      (fd : ℕ) (mime : Option (Bytes × ℕ)) (s : Session B I)
      → inputs (serve_mime W fd mime s) ≡ inputs s
  unfolding serve_mime
  inputs-serve_mime fd none s = refl
  inputs-serve_mime fd (some (mime, next)) s = ground arith

  serve_from-Sent :
      (fds : List ℕ) (msg : Bytes) (s : Session B I)
      → s.src.read_fds ≡ fds
      → Sent 0 (inputs s) synthetic_clipboard (inputs (serve_from W fds msg s))
  unfolding Sent serve_from
  serve_from-Sent [] msg s h = (refl, inl refl, refl)
  serve_from-Sent (fd ∷ fds) msg s h =
      let taken : Session B I = record s { src = record s.src { read_fds = fds } } in
      let same = inputs-serve_mime fd (read_str W.endian (drop header_len msg) 0) taken in
      (
        ap (λ (i : Inputs). i.0.0) same,
        inr (ap (λ (i : Inputs). i.0.1) same ∙ sym (ap (drop 1) h)),
        ap (λ (i : Inputs). i.1) same,
      )

  synthetic-Sent :
      (msg : Bytes) (opcode : ℕ) (s : Session B I)
      → Sent 0
          (inputs s)
          synthetic_clipboard
          (inputs (handle_synthetic_clipboard_event W msg opcode s))
  unfolding Sent handle_synthetic_clipboard_event
  synthetic-Sent msg opcode s =
      let served = serve_from W s.src.read_fds msg s in
      let cancelled : Session B I = record s {
        reclaim = record s.reclaim { active_source_host_id = none };
      } in
      let other = if opcode == 2 then cancelled else s in
      elim (opcode == 1)
        as (λ b. Sent 0 (inputs s) synthetic_clipboard (inputs (if b then served else other))) [
          | true ↦ serve_from-Sent s.src.read_fds msg s refl
          | false ↦
              elim (opcode == 2)
                as (λ b.
                  Sent 0 (inputs s) synthetic_clipboard (inputs (if b then cancelled else s))) [
                    | true ↦ (refl, inl refl, refl)
                    | false ↦ (refl, inl refl, refl)
                  ]
        ]

  relay_known-Sent :
      (dir : Direction) (header : MessageHeader) (sender : ℕ) (iface : I) (desc : MessageDesc I)
      (msg : Bytes) (s : Session B I)
      → SomeSent
          (inputs s)
          (relay_known W dir header sender iface desc msg s).0
          (inputs (relay_known W dir header sender iface desc msg s).1)
  unfolding Sent relay_known
  relay_known-Sent dir header sender iface desc msg s =
      let x = incoming W dir header sender iface desc msg in
      elim (walk_signature W.endian (drop header_len msg) desc.signature)
        as (λ w.
          (n : ℕ) × SentBy W n s (elim w [
            | err e ↦ (dropped_parse_error, s)
            | ok end walk ↦ relay_walked W (x walk) msg s
          ])) [
            | err e ↦ (0, refl)
            | ok end walk ↦ (walk.fd_count, relay_walked-Sent W (x walk) msg s)
          ]

  relay_parsed-Sent :
      (dir : Direction) (header : MessageHeader) (msg : Bytes) (s : Session B I)
      → SomeSent
          (inputs s)
          (relay_parsed W dir header msg s).0
          (inputs (relay_parsed W dir header msg s).1)
  unfolding Sent relay_parsed
  relay_parsed-Sent dir header msg s =
      elim (lookup_desc W dir header s)
        as (λ o.
          (n : ℕ) × SentBy W n s (elim o [
            | none ↦ (dropped_unknown, s)
            | some (sender, iface, desc) ↦ relay_known W dir header sender iface desc msg s
          ])) [
            | none ↦ (0, refl)
            | some (sender, iface, desc) ↦ relay_known-Sent dir header sender iface desc msg s
          ]

  pub relay_message-Sent :
      (dir : Direction) (msg : Bytes) (s : Session B I)
      → SomeSent (inputs s) (relay_message W dir msg s).0 (inputs (relay_message W dir msg s).1)
  unfolding Sent relay_message
  relay_message-Sent dir msg s =
      elim (parse W.endian msg)
        as (λ o.
          (n : ℕ) × SentBy W n s (elim o [
            | none ↦ (dropped_parse_error, s)
            | some header ↦
                if is_synthetic W dir header s
                then (synthetic_clipboard, handle_synthetic_clipboard_event W msg header.opcode s)
                else relay_parsed W dir header msg s
          ])) [
            | none ↦ (0, refl)
            | some header ↦
                elim (is_synthetic W dir header s)
                  as (λ b.
                    (n : ℕ) × SentBy W n s (
                      if b
                      then (
                        synthetic_clipboard,
                        handle_synthetic_clipboard_event W msg header.opcode s,
                      )
                      else relay_parsed W dir header msg s)) [
                        | true ↦ (0, synthetic-Sent msg header.opcode s)
                        | false ↦ relay_parsed-Sent dir header msg s
                      ]
          ]
