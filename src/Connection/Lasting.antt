-- ===== src/Connection/Lasting.antt =====
-- src/lib.rs: what ends `run_connection` while the client stays.
use wl_resprox.Prelude.{
  zero, suc, ◌≡◌, true, false, List, [], ◌∷◌, ◌++◌, ◌⊎◌, Bool, refl, sym, ap, ◌∙◌, if◌then◌else◌,
  none, some, Option-cases, inl, inr,
}
use wl_resprox.Relay.Session.{World}
use wl_resprox.Connection.Line.{Line, Filled, count, again, broken, waits, fill}
use wl_resprox.Connection.Open.{IsAlive, StaysOpen, fill-StaysOpen}
use wl_resprox.Connection.Loop.{
  Connection, Stop, hanging, crashed, Event, gtk_ready, host_ready, reconnected, begin_recovery,
  end_recovery, unfreeze, resume, relay_client, relay_host, gtk_filled, host_filled, on_gtk,
  on_host, on_reconnect, turn, run_connection,
}
use wl_resprox.Recovery.Recover.{
  Recovered, recovered, dead_host, never_synced, panic, starved, recover_state_after_reconnect,
}
use wl_resprox.Connection.Served.{turn-IsServed}

module _ {B I : Type 0} (W : World B I) where
  -- A reconnect whose recovery does not come back: it waits for the registry without end, or panics.
  abbrev pub Ends : Line → Connection B I → Stop → Type 0
  Ends host c why =
      (c.frozen ≡ true)
      × (((recover_state_after_reconnect W c.session.graph (begin_recovery W host c) ≡ never_synced)
            × (why ≡ hanging))
          ⊎ ((recover_state_after_reconnect W c.session.graph (begin_recovery W host c) ≡ panic)
              × (why ≡ crashed)))

  -- One of the events is such a reconnect, and the session runs up to it.
  abbrev pub EndedBy : Connection B I → List Event → Stop → Type 0
  EndedBy c events why =
      (before : List Event) × (host : Line) × (rest : List Event) × ((events
          ≡ before ++ reconnected host ∷ rest)
        × ((run_connection W c before).stopped ≡ none)
        × Ends host (run_connection W c before) why)

  resume-Ends :
      (c : Connection B I) (why : Stop) (x : Recovered B I)
      → c.stopped ≡ none
      → (resume W x c).stopped ≡ some why
      → ((x ≡ never_synced) × (why ≡ hanging)) ⊎ ((x ≡ panic) × (why ≡ crashed))
  unfolding resume unfreeze end_recovery
  resume-Ends c why (recovered r) running e = absurd (cc)
  resume-Ends c why (dead_host r) running e = absurd (cc)
  resume-Ends c why never_synced running e = inl (refl, cc)
  resume-Ends c why panic running e = inr (refl, cc)
  resume-Ends c why starved running e = absurd (cc)

  gtk_filled-running :
      (c : Connection B I) (x : Filled × Line)
      → c.stopped ≡ none
      → IsAlive x.0
      → (gtk_filled W c x).stopped ≡ none
  unfolding gtk_filled relay_client
  gtk_filled-running c (count zero, gtk) running alive = absurd alive
  gtk_filled-running c (count (suc n), gtk) running alive = running
  gtk_filled-running c (broken, gtk) running alive = absurd alive
  gtk_filled-running c (again, gtk) running alive = running
  gtk_filled-running c (waits, gtk) running alive = running

  host_filled-running :
      (c : Connection B I) (x : Filled × Line)
      → c.stopped ≡ none
      → (host_filled W c x).stopped ≡ none
  unfolding host_filled relay_host
  host_filled-running c (count zero, host) running = running
  host_filled-running c (count (suc n), host) running = running
  host_filled-running c (broken, host) running = running
  host_filled-running c (again, host) running = running
  host_filled-running c (waits, host) running = running

  either-running :
      (b : Bool) (c d : Connection B I)
      → c.stopped ≡ none
      → d.stopped ≡ none
      → (if b then c else d).stopped ≡ none
  either-running true c d running other = running
  either-running false c d running other = other

  ended-other :
      (b : Bool) (c d : Connection B I) (why : Stop)
      → c.stopped ≡ none
      → (if b then d else c).stopped ≡ some why
      → (b ≡ true) × (d.stopped ≡ some why)
  ended-other true c d why running e = (refl, e)
  ended-other false c d why running e = let wrong : none ≡ some why = sym running ∙ e in absurd (cc)

  -- Only a reconnect ends the session, and only if its recovery does not come back.
  turn-Ends :
      (c : Connection B I) (event : Event) (why : Stop)
      → StaysOpen c.gtk
      → c.stopped ≡ none
      → (turn W c event).stopped ≡ some why
      → (host : Line) × (event ≡ reconnected host) × Ends host c why
  unfolding turn on_gtk on_host on_reconnect
  turn-Ends c gtk_ready why o running e =
      let (alive, o') = fill-StaysOpen c.gtk.arrivals c.gtk.conn o in
      let fine = gtk_filled-running c (fill c.gtk.arrivals c.gtk.conn) running alive in
      let ended : (on_gtk W c).stopped ≡ some why = rw (running, turn) at e in
      let wrong : none ≡ some why = sym fine ∙ ended in absurd (cc)
  turn-Ends c host_ready why o running e =
      let fine = host_filled-running c (fill c.host.arrivals c.host.conn) running in
      let ended : (if c.frozen then c else on_host W c).stopped ≡ some why =
        rw (running, turn) at e in
      let wrong : none ≡ some why =
        sym (either-running c.frozen c (on_host W c) running fine) ∙ ended in
      absurd (cc)
  turn-Ends c (reconnected host) why o running e =
      let ended : (if c.frozen then on_reconnect W host c else c).stopped ≡ some why =
        rw (running, turn) at e in
      let (frozen, resumed) = ended-other c.frozen c (on_reconnect W host c) why running ended in
      (host, refl, (frozen, resume-Ends c why _ running resumed))

  turn_stopped :
      (c : Connection B I) (event : Event) (why : Stop)
      → c.stopped ≡ some why
      → (turn W c event).stopped ≡ some why
  unfolding turn
  turn_stopped c event why h = rw (h, turn) h

  run_stopped :
      (c : Connection B I) (events : List Event) (why : Stop)
      → c.stopped ≡ some why
      → (run_connection W c events).stopped ≡ some why
  unfolding run_connection
  run_stopped c [] why h = h
  run_stopped c (event ∷ rest) why h =
      run_stopped (turn W c event) rest why (turn_stopped c event why h)

  -- If the client's stream neither ends nor fails and a session that runs ends, in any order of client
  -- data, compositor data, ends and errors of the compositor, and reconnects, then one of the events is
  -- a reconnect of the frozen session, the session runs up to it, and its recovery either waits for the
  -- registry without end or panics. The client, the end or an error of the compositor, and a recovery
  -- that succeeds or fails never end it.
  pub run_connection-served :
      (c : Connection B I) (events : List Event) (why : Stop)
      → StaysOpen c.gtk
      → c.stopped ≡ none
      → (run_connection W c events).stopped ≡ some why
      → EndedBy c events why
  unfolding run_connection
  run_connection-served c [] why o running e =
      let wrong : none ≡ some why = sym running ∙ e in absurd (cc)
  run_connection-served c (event ∷ rest) why o running e =
      elim (Option-cases (turn W c event).stopped) [
        | inr (why', stopped) ↦
            let same : some why' ≡ some why =
              sym (run_stopped (turn W c event) rest why' stopped) ∙ e in
            let (host, event', ends) = turn-Ends c event why o running (stopped ∙ same) in
            ([], host, rest, (ap (λ v. v ∷ rest) event', running, ends))
        | inl running' ↦
            let (o', kept) = turn-IsServed W c event (o, λ q. cc) in
            let (before, host, later, (split, runs, ends)) =
              run_connection-served (turn W c event) rest why o' running' e in
            (event ∷ before, host, later, (ap (λ l. event ∷ l) split, runs, ends))
      ]
