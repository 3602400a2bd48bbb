-- ===== src/Tests/Recovery.antt =====
-- src/lib.rs: recovery after a reconnect, at concrete inputs.
use wl_resprox.Prelude.{
  ℕ, ◌≡◌, ◌≢◌, refl, arith, List, [], ◌∷◌, ◌++◌, some, none, false, true, if◌then◌else◌, ◌==◌,
}
use wl_resprox.Shadow.Table.{ShadowTable, new, bump_generation, map_ids, host_id}
use wl_resprox.Shadow.BiMap.{Pairing, pairing}
use wl_resprox.Shadow.Generations.{new-Dated}
use wl_resprox.Recreation.Graph.{global, surface, Recreatable, shm_pool}
use wl_resprox.Trackers.PendingFrames
use wl_resprox.Trackers.BufferFlow
use wl_resprox.Connection.Line.{Line, chunk}
use wl_resprox.Recovery.State.{Recovery}
use wl_resprox.Recovery.Recreate.{issue_new, map_object, pool_values}
use wl_resprox.Recovery.Toplevel.{Awaited, handshake}
use wl_resprox.Recovery.Toplevel
use wl_resprox.Recovery.Replay.{Found, finished, replay}
use wl_resprox.Recovery.Recover.{never_synced, starved, recover_state_after_reconnect}
use wl_resprox.Recovery.Growth.{advance}
use wl_resprox.Recovery.Keeps.{bump_generation-Fresh, Fresh, map_ids-Keeps, replay-lasting}
use wl_resprox.Recovery.Made.{replay-made}
use wl_resprox.Recreation.Order.{ids_after, parents}
use wl_resprox.Recovery.Descriptors.{to_come, handshake-read_fds}
use wl_resprox.Recovery.Liveness.{AllAlive, replay-alive}
use wl_resprox.Recovery.Returns.{recover_state_after_reconnect-returns}
use wl_resprox.Wire.Words.{little, to_ne_bytes}
use wl_resprox.Wire.Header.{build_message}
use wl_resprox.Trackers.Grabs
use wl_resprox.Trackers.Grabs.{on_pointer_enter}
use wl_resprox.Connection.Loop.{
  Connection, hanging, reconnected, gtk_ready, host_ready, run_connection, on_reconnect,
}
use wl_resprox.Connection.Lasting.{EndedBy, run_connection-served}
use wl_resprox.Connection.Frozen.{run_connection-frozen}
use wl_resprox.Tests.Fixtures.{
  frame_msg, table, session, Face, display, registry, bind_desc, shm, callback, faces, world,
  pool_desc,
}

abbrev idle : Line
idle = record {
  conn = record { read_buf = []; read_fds = []; sent = []; answers = [] };
  arrivals = [];
}

abbrev new_generation : ShadowTable Pairing Face
new_generation = bump_generation faces pairing (new faces pairing)

-- After the `wl_shm` 6 has been bound again.
abbrev bound : ShadowTable Pairing Face
bound = map_ids faces pairing (advance world 1 new_generation) 6 2 shm

abbrev recovery : ShadowTable Pairing Face → Recovery Pairing Face
recovery objects = record {
  host = idle;
  gtk = idle;
  objects = objects;
  buffer_flow = BufferFlow.new;
  pending_frames = PendingFrames.new;
  reclaim = record {
    pending = false;
    data_device_manager_global = none;
    active_source_host_id = none;
  };
}

-- A pool of it, with descriptor 7.
abbrev pool : Recreatable Face
pool = shm_pool 6 7 4096

abbrev pool_found : Found Face
pool_found = record {
  globals = [];
  registry_host_id = 2;
  registry_interface = display;
  graph = record { recipes = (10, pool) ∷ [] };
}

abbrev pool_made : Recovery Pairing Face
pool_made =
    map_object world 10 3 callback
      (issue_new world 2 0 pool_desc.signature (λ n. pool_values 7 4096 n 0) (recovery bound)).2

new_generation-Fresh : Fresh world new_generation
unfolding new
new_generation-Fresh =
    bump_generation-Fresh world (new faces pairing) (omega arith) (new-Dated faces pairing)

bound-Fresh : Fresh world bound
unfolding bump_generation advance
bound-Fresh =
    (map_ids-Keeps world 1 0 6 new_generation shm (omega arith) new_generation-Fresh
      (omega arith)).0

replay-lasting_example :
    (host_id faces pairing pool_made.objects 6 ≡ some 2) × Fresh world pool_made.objects
unfolding map_ids advance bump_generation wl_resprox.Recovery.Replay.replay_recipe
    wl_resprox.Prelude.Map.get wl_resprox.Prelude.Map.insert new pairing replay
replay-lasting_example =
    replay-lasting world pool_found ((10, pool) ∷ []) (recovery bound) pool_made 6 2 bound-Fresh
      (omega arith) refl (omega arith) (omega arith, tt) refl

-- The pool behind a surface that cannot be made again.
replay-made_example : host_id faces pairing pool_made.objects 10 ≡ some 3
unfolding map_ids advance bump_generation wl_resprox.Recovery.Replay.replay_recipe
    wl_resprox.Prelude.Map.get wl_resprox.Prelude.Map.insert new pairing replay
replay-made_example =
    replay-made world pool_found ((12, surface 13) ∷ []) 10 pool [] (recovery bound)
      (recovery bound) pool_made pool_made 3 callback bound-Fresh (omega arith) (omega arith) tt
      refl refl refl

abbrev nothing_awaited : Awaited
nothing_awaited = record {
  toplevel_host = 4;
  toplevel_guest = 12;
  toplevel_configure = some 0;
  parent_host = 3;
  parent_guest = 11;
  parent_configure = some 0;
}

-- A client with a registry, 3, and a compositor that goes away in the middle of a message.
abbrev cut_off : Recovery Pairing Face
cut_off = record (recovery (map_ids faces pairing new_generation 3 9 registry)) {
  host = record idle { arrivals = chunk (1 ∷ 2 ∷ []) [] ∷ chunk [] [] ∷ [] };
}

recover_state_after_reconnect-returns_example :
    (recover_state_after_reconnect world pool_found.graph cut_off ≢ never_synced)
    × (recover_state_after_reconnect world pool_found.graph cut_off ≢ starved)
    × ((handshake world nothing_awaited (some 4) (recovery bound)).0 ≢ Toplevel.out_of_fuel)
recover_state_after_reconnect-returns_example =
    recover_state_after_reconnect-returns world pool_found.graph cut_off (recovery bound)
      nothing_awaited (some 4) tt

-- The `wl_shm` and its pool, on a compositor that offers version 1 of `wl_shm`.
abbrev shm_found : Found Face
shm_found = record {
  globals = ("wl_shm", 5, 1) ∷ [];
  registry_host_id = 2;
  registry_interface = registry;
  graph = record { recipes = (6, global shm 1) ∷ (10, pool) ∷ [] };
}

abbrev shm_kind : ℕ → Face
shm_kind k = if k == 6 then shm else callback

replay-alive_example :
    (s' : Recovery Pairing Face) × (replay world shm_found shm_found.graph.recipes
        (recovery new_generation)
      ≡ finished s')
    × AllAlive world shm_found shm_kind (ids_after [] shm_found.graph.recipes) s'.objects
unfolding parents wl_resprox.Prelude.Map.contains wl_resprox.Recovery.Registry.found_global
    wl_resprox.Wire.Encode.Typed.well_typed wl_resprox.Recovery.State.request_named bump_generation
replay-alive_example =
    replay-alive world shm_found shm_kind (recovery new_generation) (tt, ((refl, tt), tt))
      (
        omega arith,
        (refl, ((5, 1), bind_desc, refl, refl, λ name version n. refl)),
        (omega arith, (0, pool_desc, refl, (refl, λ n other. refl)), tt),
      )
      refl new_generation-Fresh (omega arith)

-- The registry is the client's 3; a pointer is grabbed, a buffer in flight, a callback awaited.
abbrev frozen_session : Connection Pairing Face
frozen_session = record {
  gtk = idle;
  host = idle;
  session =
      record (session
        (map_ids faces pairing (map_ids faces pairing table 3 9 registry) 9 12 callback) [] []) {
          grabs = on_pointer_enter Grabs.new 7 5;
          buffer_flow = record { pending_attach = []; in_flight = 8 ∷ [] };
          pending_frames = record { awaiting_done = 9 ∷ [] };
        };
  frozen = true;
  stopped = none;
}

run_connection-frozen_example :
    ((run_connection world frozen_session (gtk_ready ∷ host_ready ∷ [])).host ≡ idle)
    × ((run_connection world frozen_session (gtk_ready ∷ host_ready ∷ [])).frozen ≡ true)
run_connection-frozen_example =
    run_connection-frozen world frozen_session (gtk_ready ∷ host_ready ∷ []) refl (tt, (tt, tt))

-- A compositor that answers the `sync` at once.
abbrev back : Line
back = record {
  conn = record {
    read_buf = build_message little 3 0 (to_ne_bytes little 0);
    read_fds = [];
    sent = [];
    answers = [];
  };
  arrivals = [];
}

-- The client sends a message while no compositor is there, and one that never answers comes.
abbrev busy_session : Connection Pairing Face
busy_session = record frozen_session { gtk = record idle { arrivals = chunk frame_msg [] ∷ [] } }

run_connection-served_example :
    EndedBy world busy_session (host_ready ∷ reconnected idle ∷ gtk_ready ∷ []) hanging
unfolding build_message run_connection wl_resprox.Recovery.Recover.find_registry
    wl_resprox.Connection.Loop.begin_recovery wl_resprox.Prelude.Map.insert new
    wl_resprox.Prelude.Map.get on_reconnect wl_resprox.Recreation.Graph.new
run_connection-served_example =
    run_connection-served world busy_session (host_ready ∷ reconnected idle ∷ gtk_ready ∷ [])
      hanging (tt, tt) refl refl

-- While the toplevel's `configure` is waited for, a descriptor waits, and another message comes with one.
abbrev keymap_comes : Recovery Pairing Face
keymap_comes = record (recovery bound) {
  host = record {
    conn = record { read_buf = []; read_fds = 20 ∷ []; sent = []; answers = [] };
    arrivals = chunk frame_msg (21 ∷ []) ∷ [];
  };
}

handshake-read_fds_example :
    (came : List ℕ) × (((handshake world nothing_awaited (some 4) keymap_comes).1.host.conn.read_fds
        ≡ 20 ∷ [] ++ came)
      × (21 ∷ []
          ≡ came
            ++ to_come (handshake world nothing_awaited (some 4) keymap_comes).1.host.arrivals))
unfolding to_come build_message
handshake-read_fds_example = handshake-read_fds world nothing_awaited (some 4) keymap_comes
