-- ===== src/Recovery/Recover.antt =====
-- src/lib.rs: `recover_state_after_reconnect` from end to end.
use wl_resprox.Prelude.{ℕ, suc, Bool, false, true, [], Option, none, some, if◌then◌else◌}
use wl_resprox.Wire.Words.{put_u32}
use wl_resprox.Wire.Header.{build_message}
use wl_resprox.Shadow.Table.{allocate_host_id, interface, map_ids, find_guest_id_by_interface_name}
use wl_resprox.Recreation.Graph.{RecreationGraph}
use wl_resprox.Relay.Session.{World}
use wl_resprox.Relay.Capture.{◌>>=◌}
use wl_resprox.Connection.Line.{Line, send}
use wl_resprox.Connection.Room.{room}
use wl_resprox.Recovery.State.{Recovery}
use wl_resprox.Recovery.Registry.{
  Collected, Globals, synced, lost, unanswered, out_of_fuel, collect_globals, global_of,
}
use wl_resprox.Recovery.Replay.{Replayed, finished, aborted, replay}
use wl_resprox.Recovery.Answers.{answer}

-- `Ok`; `Err`; a wait for the registry that nothing ends; an `expect` that fails; and a model that ran
-- out of fuel.
pub data Recovered (B I : Type 0) : Type 0 where
  recovered dead_host : Recovery B I → Recovered B I
  never_synced panic starved : Recovered B I

module _ {B I : Type 0} (W : World B I) where
  -- The registry's guest id and interface.
  unfoldable pub find_registry : Recovery B I → Option (ℕ × I)
  unfolding find_guest_id_by_interface_name interface
  find_registry s = do
    guest ← find_guest_id_by_interface_name W.protocol W.ids s.objects "wl_registry"
    iface ← interface W.protocol W.ids s.objects guest
    some (guest, iface)

  -- `get_registry` and `sync`, with the new ids; false if either cannot be written.
  unfoldable pub ask_registry : Recovery B I → Bool × ℕ × ℕ × Recovery B I
  unfolding allocate_host_id send build_message put_u32
  ask_registry s =
      let (registry, objects1) = allocate_host_id W.protocol W.ids s.objects in
      let (sync, objects2) = allocate_host_id W.protocol W.ids objects1 in
      let (asked, host1) =
        send s.host (build_message W.endian 1 1 (put_u32 W.endian [] registry)) [] in
      let (both, host2) = send host1 (build_message W.endian 1 0 (put_u32 W.endian [] sync)) [] in
      if asked
      then (both, registry, sync, record s { host = host2; objects = objects2 })
      else (false, registry, sync, record s { host = host1; objects = objects2 })

  -- After the recipes: the answers, and the clipboard.
  unfoldable pub settle : Globals → Replayed B I → Recovered B I
  unfolding answer global_of
  settle globals aborted = panic
  settle globals (finished s) =
      let answered = answer W s in
      recovered (record answered {
        reclaim = record answered.reclaim {
          data_device_manager_global = global_of "wl_data_device_manager" globals;
          pending = true;
        };
      })

  unfoldable pub rebuild : RecreationGraph I → Globals → ℕ → I → Recovery B I → Recovered B I
  unfolding replay settle
  rebuild graph globals registry iface s = settle globals (
      replay W
        (record {
          globals = globals;
          registry_host_id = registry;
          registry_interface = iface;
          graph = graph;
        })
        graph.recipes s)

  -- After the wait for the registry: the registry is mapped, and the objects are built.
  unfoldable pub after_registry :
      RecreationGraph I → ℕ → I → ℕ → Recovery B I → Collected × Line → Recovered B I
  unfolding map_ids rebuild
  after_registry graph guest iface registry s (lost, host) = dead_host (record s { host = host })
  after_registry graph guest iface registry s (unanswered, host) = never_synced
  after_registry graph guest iface registry s (out_of_fuel, host) = starved
  after_registry graph guest iface registry s (synced globals, host) =
      rebuild graph globals registry iface (record s {
        host = host;
        objects = map_ids W.protocol W.ids s.objects guest registry iface;
      })

  unfoldable pub fetch_registry : RecreationGraph I → ℕ → I → ℕ → ℕ → Recovery B I → Recovered B I
  unfolding collect_globals room after_registry
  fetch_registry graph guest iface registry sync s =
      after_registry graph guest iface registry s
        (collect_globals W (suc (room s.host)) registry sync [] s.host)

  unfoldable pub recover_state_after_reconnect : RecreationGraph I → Recovery B I → Recovered B I
  unfolding find_registry ask_registry fetch_registry
  recover_state_after_reconnect graph s =
      let cleared = record s { reclaim = record s.reclaim { active_source_host_id = none } } in
      elim (find_registry cleared) [
        | none ↦ recovered cleared
        | some (guest, iface) ↦
            let (ok, registry, sync, asked) = ask_registry cleared in
            if ok then fetch_registry graph guest iface registry sync asked else dead_host asked
      ]
