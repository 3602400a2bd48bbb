-- ===== src/Relay/Drain.antt =====
-- src/lib.rs: the loop over the messages that have arrived ends, and leaves no message behind.
use wl_resprox.Prelude.{
  ℕ, zero, suc, ◌+◌, ◌<◌, ◌≡◌, inl, inr, refl, ap, ◌∙◌, List, [], ◌∷◌, none, some, arith, drop,
  drop-drop, length, length-drop, Option-cases,
}
use wl_resprox.Wire.Header.{take_message, take_message_prefix}
use wl_resprox.Relay.Session.{World, Session, Direction}
use wl_resprox.Relay.Forward.{Outcome}
use wl_resprox.Relay.Process.{relay_message, consume, relay_ready_messages}
use wl_resprox.Relay.Queue.{inputs}
use wl_resprox.Relay.AnyMessage.{SomeSent-read_buf, relay_message-Sent}

module _ {B I : Type 0} (W : World B I) where
  -- With more fuel than there are bytes in the buffer the loop returns; then no complete message
  -- is left in the buffer, and what is left is the buffer without some bytes of its front.
  pub relay_ready_messages-total :
      (fuel : ℕ) (dir : Direction) (s : Session B I)
      → length s.src.read_buf < fuel
      → (outcomes : List Outcome) × (final : Session B I) × (k : ℕ) × (relay_ready_messages W fuel
            dir s
          ≡ some (outcomes, final))
        × (take_message W.endian final.src.read_buf ≡ none)
        × (final.src.read_buf ≡ drop k s.src.read_buf)
  unfolding relay_ready_messages
  relay_ready_messages-total zero dir s h = absurd (omega arith)
  relay_ready_messages-total (suc fuel) dir s h =
      elim (Option-cases (take_message W.endian s.src.read_buf)) [
        | inl e ↦ ([], s, 0, rw (e, relay_ready_messages) refl, e, refl)
        | inr ((msg, len), e) ↦
            let (prefix, length', enough, fits) =
              take_message_prefix W.endian s.src.read_buf msg len e in
            let (outcome, t) = relay_message W dir msg s in
            let kept =
              SomeSent-read_buf outcome (inputs s) (inputs t) (relay_message-Sent W dir msg s) in
            let (outcomes, final, k, returned, finished, rest) =
              relay_ready_messages-total fuel dir (consume W len t) (
                omega (
                  arith,
                  length-drop {0} len t.src.read_buf,
                  ap (λ (b : List ℕ). length b) kept,
                )) in
            (
              outcome ∷ outcomes,
              final,
              len + k,
              rw (e, relay_ready_messages, returned) refl,
              finished,
              rest ∙ drop-drop len k t.src.read_buf ∙ ap (drop (len + k)) kept,
            )
      ]
