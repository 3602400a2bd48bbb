-- ===== src/Relay/Delivery.antt =====
-- src/lib.rs: what the relay of one message does to the two connections.
use wl_resprox.Prelude.{
  ℕ, zero, suc, ◌≡◌, ◌⊎◌, refl, sym, ap, ◌∙◌, List, [], ◌∷◌, Option, none, some, arith, take, drop,
}
use wl_resprox.Wire.Words.{Bytes}
use wl_resprox.Wire.Header.{write_sender_id}
use wl_resprox.Relay.Session.{World, Session, Conn, write_message}
use wl_resprox.Relay.Capture.{Incoming}
use wl_resprox.Relay.Forward.{
  Outcome, relayed, dropped_frozen, dropped_parse_error, synthetic_clipboard, pop_fds,
  tee_clipboard, write_to, write_out, retain_pool, retain_plane, send_addressed, send_on,
}
use wl_resprox.Relay.Queue.{Inputs, inputs, waiting}

-- What has to hold of the session before and after a message with `n` descriptors, by what became
-- of the message. A message that is written takes its descriptors and is one write; one that only
-- a dead host keeps from being written takes its descriptors all the same; the proxy's own data
-- source takes one descriptor at most; any other message leaves both connections' input and output
-- alone, and its descriptors in the queue.
unfoldable pub Sent : ℕ → Inputs → Outcome → Inputs → Type 0
Sent n ((buf, fds), dst) relayed ((buf', fds'), dst') =
    (buf' ≡ buf)
    × (fds' ≡ drop n fds)
    × (d : Conn) × (m : Bytes) × (sent : List ℕ) × (dst ≡ some d)
    × (dst' ≡ some (write_message d m sent).1)
Sent n ((buf, fds), dst) dropped_frozen ((buf', fds'), dst') =
    (buf' ≡ buf) × (fds' ≡ drop n fds) × (dst ≡ none) × (dst' ≡ none)
Sent n ((buf, fds), dst) synthetic_clipboard ((buf', fds'), dst') =
    (buf' ≡ buf) × ((fds' ≡ fds) ⊎ (fds' ≡ drop 1 fds)) × (dst' ≡ dst)
Sent n before _ after = after ≡ before

pub pop_fds_lem : (n : ℕ) (queue : List ℕ) → pop_fds n queue ≡ (take n queue, drop n queue)
unfolding pop_fds
pop_fds_lem zero queue = refl
pop_fds_lem (suc n) [] = refl
pop_fds_lem (suc n) (fd ∷ queue) =
    ap (λ (p : List ℕ × List ℕ). (fd ∷ p.0, p.1)) (pop_fds_lem n queue)

module _ {B I : Type 0} (W : World B I) where
  inputs-tee_clipboard :
      (x : Incoming I) (msg : Bytes) (fds : List ℕ) (s : Session B I)
      → inputs (tee_clipboard W x msg fds s).1 ≡ inputs s
  unfolding tee_clipboard
  inputs-tee_clipboard x msg fds s = ground arith

  inputs-retain_pool :
      (x : Incoming I) (msg : Bytes) (created : Option ℕ) (fds : List ℕ) (s : Session B I)
      → inputs (retain_pool W x msg created fds s) ≡ inputs s
  unfolding retain_pool
  inputs-retain_pool x msg created fds s = ground arith

  inputs-retain_plane :
      (x : Incoming I) (msg : Bytes) (fds : List ℕ) (s : Session B I)
      → inputs (retain_plane W x msg fds s) ≡ inputs s
  unfolding retain_plane
  inputs-retain_plane x msg fds s = ground arith

  pub Sent-before : (n : ℕ) (o : Outcome) (a b c : Inputs) → b ≡ a → Sent n b o c → Sent n a o c
  Sent-before n o a b c e h = rw (sym e) h

  pub Sent-after : (n : ℕ) (o : Outcome) (a b c : Inputs) → c ≡ b → Sent n a o b → Sent n a o c
  Sent-after n o a b c e h = rw e h

  write_to-Sent :
      (n : ℕ) (dst : Option Conn) (msg : Bytes) (fds : List ℕ) (s t : Session B I)
      → waiting t.src ≡ (s.src.read_buf, drop n s.src.read_fds)
      → t.dst ≡ dst
      → s.dst ≡ dst
      → Sent n (inputs s) (write_to W dst msg fds t).0 (inputs (write_to W dst msg fds t).1)
  unfolding Sent write_to
  write_to-Sent n none msg fds s t e f g = (ap (λ p. p.0) e, ap (λ p. p.1) e, g, f)
  write_to-Sent n (some d) msg fds s t e f g =
      (ap (λ p. p.0) e, ap (λ p. p.1) e, d, msg, fds, g, refl)

  -- What a step's result has to satisfy.
  abbrev pub SentBy : ℕ → Session B I → Outcome × Session B I → Type 0
  SentBy n s out = Sent n (inputs s) out.0 (inputs out.1)

  send_addressed-Sent :
      (x : Incoming I) (msg : Bytes) (created : Option ℕ) (s : Session B I)
      → SentBy x.walk.fd_count s (send_addressed W x msg created s)
  unfolding send_addressed write_out
  send_addressed-Sent x msg created s =
      let n = x.walk.fd_count in
      let popped = pop_fds n s.src.read_fds in
      let taken = record s { src = record s.src { read_fds = popped.1 } } in
      let (fds, teed) = tee_clipboard W x msg popped.0 taken in
      let kept = inputs-tee_clipboard x msg popped.0 taken in
      let (outcome, written) = write_out W msg fds teed in
      let pooled = retain_pool W x msg created fds written in
      Sent-after n outcome (inputs s) (inputs written) _
        (inputs-retain_plane x msg fds pooled ∙ inputs-retain_pool x msg created fds written)
        (write_to-Sent n teed.dst msg fds s teed
          (ap (λ i. i.0) kept
            ∙ ap (λ (p : List ℕ × List ℕ). (s.src.read_buf, p.1)) (pop_fds_lem n s.src.read_fds))
          refl (sym (ap (λ i. i.1) kept)))

  pub send_on-Sent :
      (x : Incoming I) (sender : ℕ) (msg : Bytes) (created : Option ℕ) (s : Session B I)
      → SentBy x.walk.fd_count s (send_on W x sender msg created s)
  unfolding Sent send_on
  send_on-Sent x sender msg created s =
      elim (write_sender_id W.endian msg sender)
        as (λ o. SentBy x.walk.fd_count s (elim o [
          | none ↦ (dropped_parse_error, s)
          | some addressed ↦ send_addressed W x addressed created s
        ])) [ none ↦ refl | some addressed ↦ send_addressed-Sent x addressed created s ]
