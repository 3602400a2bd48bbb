-- ===== src/Connection/Frozen.antt =====
-- src/lib.rs: `run_connection` while the compositor is gone.
use wl_resprox.Prelude.{
  ℕ, zero, suc, ◌≡◌, refl, ap, ◌∙◌, inl, inr, true, List, [], ◌∷◌, none, some, arith, length,
  Option-cases, All,
}
use wl_resprox.Wire.Header.{take_message}
use wl_resprox.Relay.Session.{World, Session, Conn, Direction, client_to_host}
use wl_resprox.Relay.Forward.{Outcome, relayed, dropped_frozen, synthetic_clipboard}
use wl_resprox.Relay.Process.{relay_message, consume, relay_ready_messages}
use wl_resprox.Relay.Queue.{Inputs, inputs}
use wl_resprox.Relay.Delivery.{Sent}
use wl_resprox.Relay.AnyMessage.{SomeSent, relay_message-Sent}
use wl_resprox.Relay.Drain.{relay_ready_messages-total}
use wl_resprox.Connection.Line.{Line, Filled, fill, count, again, broken, waits}
use wl_resprox.Connection.Loop.{
  Connection, Event, gtk_ready, host_ready, reconnected, relay_all, dst_or, relay_client,
  gtk_filled, on_gtk, turn, run_connection,
}

-- A message without a destination leaves it so.
SomeSent-dst : (o : Outcome) (a b : Inputs) → SomeSent a o b → a.1 ≡ none → b.1 ≡ none
unfolding Sent
SomeSent-dst relayed a b (n, h) e = absurd (ground arith)
SomeSent-dst dropped_frozen a b (n, h) e = h.3
SomeSent-dst synthetic_clipboard a b (n, h) e = h.2 ∙ e
SomeSent-dst _ a b (n, h) e = ap (λ (i : Inputs). i.1) h ∙ e

module _ {B I : Type 0} (W : World B I) where
  relay_ready_messages-dst :
      (fuel : ℕ) (dir : Direction) (s : Session B I) (outcomes : List Outcome) (t : Session B I)
      → s.dst ≡ none
      → relay_ready_messages W fuel dir s ≡ some (outcomes, t)
      → t.dst ≡ none
  unfolding relay_ready_messages
  relay_ready_messages-dst zero dir s outcomes t h e = absurd (cc)
  relay_ready_messages-dst (suc fuel) dir s outcomes t h e =
      elim (Option-cases (take_message W.endian s.src.read_buf)) [
        | inl missing ↦ ground arith
        | inr ((msg, len), taken) ↦
            let (outcome, u) = relay_message W dir msg s in
            let gone : u.dst ≡ none =
              SomeSent-dst outcome (inputs s) (inputs u) (relay_message-Sent W dir msg s) h in
            elim (Option-cases (relay_ready_messages W fuel dir (consume W len u))) [
              | inl starved ↦ absurd (ground arith)
              | inr ((more, final), returned) ↦
                  let later =
                    relay_ready_messages-dst fuel dir (consume W len u) more final gone returned in
                  ground arith
            ]
      ]

  relay_all-dst :
      (dir : Direction) (s : Session B I) → s.dst ≡ none → (relay_all W dir s).dst ≡ none
  unfolding relay_all
  relay_all-dst dir s h =
      let (outcomes, t, k, returned, finished, rest) =
        relay_ready_messages-total W (suc (length s.src.read_buf)) dir s (omega arith) in
      rw (returned, relay_all)
        (relay_ready_messages-dst (suc (length s.src.read_buf)) dir s outcomes t h returned)

  -- What a turn leaves of the compositor's side.
  abbrev pub Silent : Connection B I → Connection B I → Type 0
  Silent c d = (d.host ≡ c.host) × (d.frozen ≡ true)

  relay_client-Silent :
      (gtk : Line) (c : Connection B I) → c.frozen ≡ true → Silent c (relay_client W gtk c)
  unfolding relay_client dst_or
  relay_client-Silent gtk c h =
      let given : Session B I = record c.session { src = gtk.conn; dst = none } in
      let gone = relay_all-dst client_to_host given refl in
      let kept : dst_or W c.host.conn (relay_all W client_to_host given) ≡ c.host.conn =
        rw (gone, dst_or) refl in
      rw h (ap (λ (conn : Conn). record c.host { conn = conn }) kept, refl)

  gtk_filled-Silent :
      (c : Connection B I) (x : Filled × Line) → c.frozen ≡ true → Silent c (gtk_filled W c x)
  unfolding gtk_filled
  gtk_filled-Silent c (count zero, gtk) h = (refl, h)
  gtk_filled-Silent c (count (suc n), gtk) h = relay_client-Silent gtk c h
  gtk_filled-Silent c (broken, gtk) h = (refl, h)
  gtk_filled-Silent c (again, gtk) h = (refl, h)
  gtk_filled-Silent c (waits, gtk) h = (refl, h)

  on_gtk-Silent : (c : Connection B I) → c.frozen ≡ true → Silent c (on_gtk W c)
  unfolding on_gtk
  on_gtk-Silent c h = gtk_filled-Silent c (fill c.gtk.arrivals c.gtk.conn) h

  -- Any event but a reconnect.
  abbrev pub IsTraffic : Event → Type 0
  IsTraffic gtk_ready = Unit
  IsTraffic host_ready = Unit
  IsTraffic (reconnected host) = ⊥

  turn-Silent :
      (c : Connection B I) (event : Event)
      → c.frozen ≡ true
      → IsTraffic event
      → Silent c (turn W c event)
  unfolding turn
  turn-Silent c gtk_ready h traffic =
      let silent = on_gtk-Silent c h in
      elim (Option-cases c.stopped) [
        | inl running ↦ rw (running, turn) silent
        | inr (why, stopped) ↦ rw (stopped, turn) (refl, h)
      ]
  turn-Silent c host_ready h traffic = elim (Option-cases c.stopped) [
    | inl running ↦ rw (running, turn, h) (refl, refl)
    | inr (why, stopped) ↦ rw (stopped, turn) (refl, h)
  ]
  turn-Silent c (reconnected host) h traffic = absurd traffic

  -- While the session is frozen and no reconnect comes, whatever the client sends, the connection to
  -- the compositor is not read, nothing is written to it, and the session stays frozen.
  pub run_connection-frozen :
      (c : Connection B I) (events : List Event)
      → c.frozen ≡ true
      → All IsTraffic events
      → ((run_connection W c events).host ≡ c.host) × ((run_connection W c events).frozen ≡ true)
  unfolding run_connection
  run_connection-frozen c [] h traffic = (refl, h)
  run_connection-frozen c (event ∷ rest) h (one, more) =
      let (same, still) = turn-Silent c event h one in
      let (same', still') = run_connection-frozen (turn W c event) rest still more in
      (same' ∙ same, still')
