-- ===== src/Recovery/Fuel.antt =====
-- src/lib.rs: the waits of `recover_state_after_reconnect` end before the fuel does.
use wl_resprox.Prelude.{
  ℕ, zero, suc, refl, ◌<◌, Bool, true, false, ◌≢◌, inl, inr, [], Option, none, arith, Bool-cases,
  Option-cases,
}
use wl_resprox.Wire.Words.{Bytes}
use wl_resprox.Wire.Header.{MessageHeader}
use wl_resprox.Recreation.Graph.{RecreationGraph}
use wl_resprox.Relay.Session.{World}
use wl_resprox.Connection.Line.{Line, Next, message, failed, waits, next_message}
use wl_resprox.Connection.Room.{room, Uses, next_message-room}
use wl_resprox.Recovery.State.{Recovery}
use wl_resprox.Recovery.Registry.{
  Globals, Collected, lost, unanswered, synced, heard, collect_after, collect_globals,
}
use wl_resprox.Recovery.Toplevel.{
  Waited, satisfied, gave_up, Awaited, is_from, pass_on, if_passed, on_configure, configure_after,
  ack_after, acknowledge, await_configure, await_ack, handshake,
}
use wl_resprox.Recovery.Registry
use wl_resprox.Recovery.Recover.{
  find_registry, after_registry, starved, ask_registry, rebuild, fetch_registry,
  recover_state_after_reconnect,
}
use wl_resprox.Recovery.Toplevel

module _ {B I : Type 0} (W : World B I) where
  -- A message uses something up.
  message-room :
      (n : ℕ) (header : MessageHeader) (msg : Bytes) (line : Line)
      → Uses W.endian (message header msg, line) n
      → room line < n
  message-room n header msg line (inl less) = less
  message-room n header msg line (inr (wrong, ended)) = absurd (cc)

  -- Each wait goes on with less, so with fuel for all that may come the fuel outlasts it.
  collect_after-Collected :
      (go_on : Globals → Line → Collected × Line) (registry sync n : ℕ) (globals : Globals)
      (x : Next × Line)
      → ((g : Globals) (l : Line) → room l < n → (go_on g l).0 ≢ Registry.out_of_fuel)
      → Uses W.endian x n
      → (collect_after W go_on registry sync globals x).0 ≢ Registry.out_of_fuel
  unfolding collect_after
  collect_after-Collected go_on registry sync n globals (failed, line) ih uses q = cc
  collect_after-Collected go_on registry sync n globals (waits, line) ih (inl less) q =
      let later = ih globals line less in ground arith
  collect_after-Collected go_on registry sync n globals (waits, line) ih (inr (same, ended)) q =
      ground arith
  collect_after-Collected go_on registry sync n globals (message header msg, line) ih uses q =
      elim (Option-cases (heard W registry sync header msg globals)) [
        | inl done ↦ ground arith
        | inr (noted, more) ↦
            let later = ih noted line (message-room n header msg line uses) in ground arith
      ]

  collect_globals-Collected :
      (fuel registry sync : ℕ) (globals : Globals) (line : Line)
      → room line < fuel
      → (collect_globals W fuel registry sync globals line).0 ≢ Registry.out_of_fuel
  unfolding collect_globals
  collect_globals-Collected zero registry sync globals line h = absurd (omega arith)
  collect_globals-Collected (suc fuel) registry sync globals line h =
      collect_after-Collected (collect_globals W fuel registry sync) registry sync (room line)
        globals (next_message W.endian line)
        (λ g l less. collect_globals-Collected fuel registry sync g l (omega arith))
        (next_message-room W.endian line)

  abbrev Ends : Waited × Recovery B I → Type 0
  Ends (waited, s) = waited ≢ Toplevel.out_of_fuel

  if_passed-Ends :
      (ok : Bool) (s : Recovery B I) (x : Waited × Recovery B I)
      → Ends x
      → Ends (if_passed W (ok, s) x)
  unfolding if_passed
  if_passed-Ends true s x h = h
  if_passed-Ends false s x h = λ q. cc

  if_passed-satisfied : (ok : Bool) (s : Recovery B I) → Ends (if_passed W (ok, s) (satisfied, s))
  unfolding if_passed
  if_passed-satisfied true s = λ q. cc
  if_passed-satisfied false s = λ q. cc

  configure_after-Ends :
      (go_on : Recovery B I → Waited × Recovery B I) (a : Awaited) (n : ℕ) (s : Recovery B I)
      (x : Next × Line)
      → ((t : Recovery B I) → room t.host < n → Ends (go_on t))
      → Uses W.endian x n
      → Ends (configure_after W go_on a s x)
  unfolding configure_after on_configure
  configure_after-Ends go_on a n s (failed, line) ih uses = λ q. cc
  configure_after-Ends go_on a n s (waits, line) ih uses = λ q. cc
  configure_after-Ends go_on a n s (message header msg, line) ih uses =
      let less = message-room n header msg line uses in
      elim (Bool-cases (is_from a.toplevel_host a.toplevel_configure header)) [
        | inl top ↦ rw (top, configure_after, on_configure) (if_passed-Ends _ _ _ (ih _ less))
        | inr other ↦ elim (Bool-cases (is_from a.parent_host a.parent_configure header)) [
          | inl parent ↦ rw (other, parent, configure_after, on_configure) (if_passed-satisfied _ _)
          | inr neither ↦ rw (other, neither, configure_after, on_configure) (ih _ less)
        ]
      ]

  await_configure-Ends :
      (fuel : ℕ) (a : Awaited) (s : Recovery B I)
      → room s.host < fuel
      → Ends (await_configure W fuel a s)
  unfolding await_configure
  await_configure-Ends zero a s h = absurd (omega arith)
  await_configure-Ends (suc fuel) a s h =
      configure_after-Ends (await_configure W fuel a) a (room s.host) s
        (next_message W.endian s.host) (λ t less. await_configure-Ends fuel a t (omega arith))
        (next_message-room W.endian s.host)

  ack_after-Ends :
      (go_on : Recovery B I → Waited × Recovery B I) (a : Awaited) (opcode : Option ℕ) (n : ℕ)
      (s : Recovery B I) (x : Next × Line)
      → ((t : Recovery B I) → room t.gtk < n → Ends (go_on t))
      → Uses W.endian x n
      → Ends (ack_after W go_on a opcode s x)
  unfolding ack_after
  ack_after-Ends go_on a opcode n s (failed, line) ih uses = λ q. cc
  ack_after-Ends go_on a opcode n s (waits, line) ih uses = λ q. cc
  ack_after-Ends go_on a opcode n s (message header msg, line) ih uses =
      let less = message-room n header msg line uses in
      elim (Bool-cases (is_from a.parent_guest opcode header)) [
        | inl acked ↦ rw (acked, ack_after) (if_passed-satisfied _ _)
        | inr other ↦ rw (other, ack_after) (ih _ less)
      ]

  await_ack-Ends :
      (fuel : ℕ) (a : Awaited) (opcode : Option ℕ) (s : Recovery B I)
      → room s.gtk < fuel
      → Ends (await_ack W fuel a opcode s)
  unfolding await_ack
  await_ack-Ends zero a opcode s h = absurd (omega arith)
  await_ack-Ends (suc fuel) a opcode s h =
      ack_after-Ends (await_ack W fuel a opcode) a opcode (room s.gtk) s
        (next_message W.endian s.gtk) (λ t less. await_ack-Ends fuel a opcode t (omega arith))
        (next_message-room W.endian s.gtk)

  acknowledge-Ends :
      (a : Awaited) (opcode : Option ℕ) (x : Waited × Recovery B I)
      → Ends x
      → Ends (acknowledge W a opcode x)
  unfolding acknowledge
  acknowledge-Ends a opcode (satisfied, s) h =
      await_ack-Ends (suc (room s.gtk)) a opcode s (omega arith)
  acknowledge-Ends a opcode (gave_up, s) h = h
  acknowledge-Ends a opcode (Toplevel.out_of_fuel, s) h = h

  after_registry-starved :
      (graph : RecreationGraph I) (guest : ℕ) (iface : I) (registry : ℕ) (s : Recovery B I)
      (x : Collected × Line)
      → x.0 ≢ Registry.out_of_fuel
      → after_registry W graph guest iface registry s x ≢ starved
  unfolding after_registry rebuild
  after_registry-starved graph guest iface registry s (lost, host) h = λ q. cc
  after_registry-starved graph guest iface registry s (unanswered, host) h = λ q. cc
  after_registry-starved graph guest iface registry s (Registry.out_of_fuel, host) h =
      absurd (h refl)
  after_registry-starved graph guest iface registry s (synced globals, host) h = λ q. ground arith

  -- Recovery never runs out of the fuel that it waits for the registry with: one more than the bytes
  -- buffered and to come, and the arrivals, of the compositor's side.
  pub recover_state_after_reconnect-starved :
      (graph : RecreationGraph I) (s : Recovery B I)
      → recover_state_after_reconnect W graph s ≢ starved
  unfolding recover_state_after_reconnect fetch_registry
  recover_state_after_reconnect-starved graph s =
      let cleared : Recovery B I = record s {
        reclaim = record s.reclaim { active_source_host_id = none };
      } in
      let (ok, registry, sync, asked) = ask_registry W cleared in
      λ q. elim (Option-cases (find_registry W cleared)) [
        | inl missing ↦ ground arith
        | inr ((guest, iface), found) ↦
            let fine =
              after_registry-starved graph guest iface registry asked
                (collect_globals W (suc (room asked.host)) registry sync [] asked.host)
                (collect_globals-Collected (suc (room asked.host)) registry sync [] asked.host
                  (omega arith)) in
            ground arith
      ]

  -- Neither wait of the handshake for a recreated toplevel runs out of its own.
  pub handshake-Ends :
      (s : Recovery B I) (a : Awaited) (opcode : Option ℕ)
      → (handshake W a opcode s).0 ≢ Toplevel.out_of_fuel
  unfolding handshake
  handshake-Ends s a opcode =
      acknowledge-Ends a opcode (await_configure W (suc (room s.host)) a s)
        (await_configure-Ends (suc (room s.host)) a s (omega arith))
