-- ===== src/Connection/Served.antt =====
-- src/lib.rs: `run_connection` keeps the client's stream open, and lets go of the client only when the
-- client does.
use wl_resprox.Prelude.{
  ℕ, zero, suc, ◌≡◌, ◌≢◌, true, false, [], none, some, Bool-cases, Option-cases, inl, inr, arith,
}
use wl_resprox.Recreation.Graph.{RecreationGraph}
use wl_resprox.Relay.Session.{World}
use wl_resprox.Connection.Line.{Line, Filled, count, again, broken, waits, fill}
use wl_resprox.Connection.Open.{IsAlive, StaysOpen, fill-StaysOpen}
use wl_resprox.Connection.Room.{room}
use wl_resprox.Connection.Loop.{
  Connection, client_gone, Event, gtk_ready, host_ready, reconnected, begin_recovery, end_recovery,
  unfreeze, resume, relay_client, relay_host, gtk_filled, host_filled, on_gtk, on_host,
  on_reconnect, turn,
}
use wl_resprox.Recovery.State.{Recovery}
use wl_resprox.Recovery.Registry.{
  Globals, Collected, lost, unanswered, out_of_fuel, synced, collect_globals,
}
use wl_resprox.Recovery.Replay.{Replayed, finished, aborted}
use wl_resprox.Recovery.Answers.{answer}
use wl_resprox.Recovery.Recover.{
  Recovered, recovered, dead_host, never_synced, panic, starved, find_registry, ask_registry,
  settle, rebuild, after_registry, fetch_registry, recover_state_after_reconnect,
}
use wl_resprox.Recovery.Client.{replay-ReplayKept}

module _ {B I : Type 0} (W : World B I) where
  abbrev RecoveredOpen : Recovered B I → Type 0
  RecoveredOpen (recovered r) = StaysOpen r.gtk
  RecoveredOpen (dead_host r) = StaysOpen r.gtk
  RecoveredOpen _ = Unit

  abbrev ReplayedOpen : Replayed B I → Type 0
  ReplayedOpen (finished s) = StaysOpen s.gtk
  ReplayedOpen aborted = Unit

  settle-RecoveredOpen :
      (globals : Globals) (x : Replayed B I) → ReplayedOpen x → RecoveredOpen (settle W globals x)
  unfolding settle answer
  settle-RecoveredOpen globals aborted o = tt
  settle-RecoveredOpen globals (finished s) o = o

  rebuild-RecoveredOpen :
      (graph : RecreationGraph I) (globals : Globals) (registry : ℕ) (iface : I) (s : Recovery B I)
      → StaysOpen s.gtk
      → RecoveredOpen (rebuild W graph globals registry iface s)
  unfolding rebuild
  rebuild-RecoveredOpen graph globals registry iface s o = settle-RecoveredOpen globals _ (
      replay-ReplayKept W (λ gtk flow frames. StaysOpen gtk) (λ s t st o. st.2 o)
        (record {
          globals = globals;
          registry_host_id = registry;
          registry_interface = iface;
          graph = graph;
        })
        graph.recipes s o)

  after_registry-RecoveredOpen :
      (graph : RecreationGraph I) (guest : ℕ) (iface : I) (registry : ℕ) (s : Recovery B I)
      (x : Collected × Line)
      → StaysOpen s.gtk
      → RecoveredOpen (after_registry W graph guest iface registry s x)
  unfolding after_registry
  after_registry-RecoveredOpen graph guest iface registry s (lost, host) o = o
  after_registry-RecoveredOpen graph guest iface registry s (unanswered, host) o = tt
  after_registry-RecoveredOpen graph guest iface registry s (out_of_fuel, host) o = tt
  after_registry-RecoveredOpen graph guest iface registry s (synced globals, host) o =
      rebuild-RecoveredOpen graph globals registry iface _ o

  asked_gtk : (s : Recovery B I) → (ask_registry W s).3.gtk ≡ s.gtk
  unfolding ask_registry
  asked_gtk s = ground arith

  recover-RecoveredOpen :
      (graph : RecreationGraph I) (s : Recovery B I)
      → StaysOpen s.gtk
      → RecoveredOpen (recover_state_after_reconnect W graph s)
  unfolding recover_state_after_reconnect fetch_registry
  recover-RecoveredOpen graph s o =
      let cleared : Recovery B I = record s {
        reclaim = record s.reclaim { active_source_host_id = none };
      } in
      let (ok, registry, sync, asked) = ask_registry W cleared in
      let same = asked_gtk cleared in
      elim (Option-cases (find_registry W cleared)) [
        | inl missing ↦ rw (missing, recover_state_after_reconnect) o
        | inr ((guest, iface), found) ↦ elim (Bool-cases ok) [
          | inl both ↦
              rw (found, recover_state_after_reconnect, both)
                (after_registry-RecoveredOpen graph guest iface registry asked
                  (collect_globals W (suc (room asked.host)) registry sync [] asked.host)
                  (rw same o))
          | inr failed ↦ rw (found, recover_state_after_reconnect, failed) (rw same o)
        ]
      ]

  -- The client's stream is open, and the session has not let go of it.
  abbrev pub IsServed : Connection B I → Type 0
  IsServed c = StaysOpen c.gtk × (c.stopped ≢ some client_gone)

  resume-IsServed :
      (c : Connection B I) (x : Recovered B I)
      → IsServed c
      → RecoveredOpen x
      → IsServed (resume W x c)
  unfolding resume unfreeze end_recovery
  resume-IsServed c (recovered r) (open', kept) o = (o, kept)
  resume-IsServed c (dead_host r) (open', kept) o = (o, kept)
  resume-IsServed c never_synced (open', kept) o = (open', λ q. cc)
  resume-IsServed c panic (open', kept) o = (open', λ q. cc)
  resume-IsServed c starved served o = served

  relay_client-IsServed :
      (gtk : Line) (c : Connection B I)
      → StaysOpen gtk
      → c.stopped ≢ some client_gone
      → IsServed (relay_client W gtk c)
  unfolding relay_client
  relay_client-IsServed gtk c o kept = (o, kept)

  gtk_filled-IsServed :
      (c : Connection B I) (x : Filled × Line)
      → c.stopped ≢ some client_gone
      → IsAlive x.0
      → StaysOpen x.1
      → IsServed (gtk_filled W c x)
  unfolding gtk_filled
  gtk_filled-IsServed c (count zero, gtk) kept alive o = absurd alive
  gtk_filled-IsServed c (count (suc n), gtk) kept alive o = relay_client-IsServed gtk c o kept
  gtk_filled-IsServed c (broken, gtk) kept alive o = absurd alive
  gtk_filled-IsServed c (again, gtk) kept alive o = (o, kept)
  gtk_filled-IsServed c (waits, gtk) kept alive o = (o, kept)

  host_filled-IsServed :
      (c : Connection B I) (x : Filled × Line) → IsServed c → IsServed (host_filled W c x)
  unfolding host_filled relay_host
  host_filled-IsServed c (count zero, host) served = served
  host_filled-IsServed c (count (suc n), host) served = served
  host_filled-IsServed c (broken, host) served = served
  host_filled-IsServed c (again, host) served = served
  host_filled-IsServed c (waits, host) served = served

  pub turn-IsServed : (c : Connection B I) (event : Event) → IsServed c → IsServed (turn W c event)
  unfolding turn on_gtk on_host on_reconnect begin_recovery
  turn-IsServed c event (o, kept) = elim (Option-cases c.stopped) [
    | inr (why, stopped) ↦ rw (stopped, turn) (o, kept)
    | inl running ↦ elim event as (λ (v : Event). IsServed (turn W c v)) [
      | gtk_ready ↦
          let (alive, o') = fill-StaysOpen c.gtk.arrivals c.gtk.conn o in
          rw (running, turn) (gtk_filled-IsServed c (fill c.gtk.arrivals c.gtk.conn) kept alive o')
      | host_ready ↦ elim (Bool-cases c.frozen) [
        | inl frozen ↦ rw (running, turn, frozen) (o, λ q. cc)
        | inr live ↦
            rw (running, turn, live)
              (host_filled-IsServed (record c { frozen = false }) (fill c.host.arrivals c.host.conn)
                (o, kept))
      ]
      | reconnected host ↦ elim (Bool-cases c.frozen) [
        | inl frozen ↦
            rw (running, turn, frozen)
              (resume-IsServed (record c { frozen = true }) _ (o, kept)
                (recover-RecoveredOpen c.session.graph (begin_recovery W host c) o))
        | inr live ↦ rw (running, turn, live) (o, λ q. cc)
      ]
    ]
  ]
