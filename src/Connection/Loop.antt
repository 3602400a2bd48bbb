-- ===== src/Connection/Loop.antt =====
-- src/lib.rs: the loop of `run_connection`, one turn of its `select!` at a time.
use wl_resprox.Prelude.{
  zero, suc, Bool, true, false, List, [], ◌∷◌, Option, none, some, if◌then◌else◌, length,
}
use wl_resprox.Wire.Words.{Bytes}
use wl_resprox.Shadow.Table.{bump_generation}
use wl_resprox.Shadow.Table
use wl_resprox.Recreation.Graph
use wl_resprox.Trackers.PendingFrames
use wl_resprox.Trackers.BufferFlow
use wl_resprox.Trackers.Grabs
use wl_resprox.Relay.Session.{World, Session, Conn, Direction, client_to_host, host_to_client}
use wl_resprox.Relay.Process.{relay_ready_messages}
use wl_resprox.Relay.Synthesize.{synthesize_grab_releases}
use wl_resprox.Connection.Line.{Line, Filled, count, again, broken, waits, fill}
use wl_resprox.Recovery.State.{Recovery}
use wl_resprox.Recovery.Recover.{
  Recovered, recovered, dead_host, never_synced, panic, starved, recover_state_after_reconnect,
}

-- Why the task does nothing more: the client is gone; it waits for a registry that never comes; or
-- it panicked.
pub data Stop : Type 0 where
  client_gone hanging crashed : Stop

-- `session` is what every relay call is handed; its two connections are set at each call.
pub record Connection (B I : Type 0) : Type 0 where
  pub gtk : Line
  pub host : Line
  pub session : Session B I
  pub frozen : Bool
  pub stopped : Option Stop

-- Which branch of the `select!` is taken. A reconnect brings the new compositor's connection.
pub data Event : Type 0 where
  gtk_ready host_ready : Event
  reconnected : Line → Event

module _ {B I : Type 0} (W : World B I) where
  -- A new session over two connections, with the cache that all sessions share.
  unfoldable pub start : Line → Line → List (Bytes × Bytes) → Connection B I
  start gtk host clipboard_cache = record {
    gtk = gtk;
    host = host;
    session = record {
      src = gtk.conn;
      dst = some host.conn;
      objects = Table.new W.protocol W.ids;
      graph = Graph.new;
      grabs = Grabs.new;
      buffer_flow = BufferFlow.new;
      pending_frames = PendingFrames.new;
      pending_dmabuf_planes = [];
      clipboard_cache = clipboard_cache;
      reclaim = record {
        pending = false;
        data_device_manager_global = none;
        active_source_host_id = none;
      };
      tees = [];
      serves = [];
    };
    frozen = false;
    stopped = none;
  }

  -- With more fuel than there are bytes to relay.
  unfoldable pub relay_all : Direction → Session B I → Session B I
  unfolding relay_ready_messages
  relay_all dir s = elim (relay_ready_messages W (suc (length s.src.read_buf)) dir s) [
    | none ↦ s
    | some (outcomes, s') ↦ s'
  ]

  unfoldable pub dst_or : Conn → Session B I → Conn
  dst_or old s = elim s.dst [ none ↦ old | some conn ↦ conn ]

  -- Nothing of the client's goes to a dead compositor.
  unfoldable pub relay_client : Line → Connection B I → Connection B I
  unfolding relay_all dst_or
  relay_client gtk c =
      let s =
        relay_all client_to_host (record c.session {
          src = gtk.conn;
          dst = if c.frozen then none else some c.host.conn;
        }) in
      record c {
        gtk = record gtk { conn = s.src };
        host = record c.host { conn = dst_or c.host.conn s };
        session = s;
      }

  unfoldable pub relay_host : Line → Connection B I → Connection B I
  unfolding relay_all dst_or
  relay_host host c =
      let s =
        relay_all host_to_client (record c.session { src = host.conn; dst = some c.gtk.conn }) in
      record c {
        host = record host { conn = s.src };
        gtk = record c.gtk { conn = dst_or c.gtk.conn s };
        session = s;
      }

  -- After the client's `fill`: its end, or an error, ends the session.
  unfoldable pub gtk_filled : Connection B I → Filled × Line → Connection B I
  unfolding relay_client
  gtk_filled c (count zero, gtk) = record c { gtk = gtk; stopped = some client_gone }
  gtk_filled c (count (suc n), gtk) = relay_client gtk c
  gtk_filled c (broken, gtk) = record c { gtk = gtk; stopped = some client_gone }
  gtk_filled c (again, gtk) = record c { gtk = gtk }
  gtk_filled c (waits, gtk) = record c { gtk = gtk }

  unfoldable pub on_gtk : Connection B I → Connection B I
  unfolding fill gtk_filled
  on_gtk c = gtk_filled c (fill c.gtk.arrivals c.gtk.conn)

  -- After the compositor's `fill`: its end, or an error, freezes the session.
  unfoldable pub host_filled : Connection B I → Filled × Line → Connection B I
  unfolding relay_host
  host_filled c (count zero, host) = record c { host = host; frozen = true }
  host_filled c (count (suc n), host) = relay_host host c
  host_filled c (broken, host) = record c { host = host; frozen = true }
  host_filled c (again, host) = record c { host = host }
  host_filled c (waits, host) = record c { host = host }

  unfoldable pub on_host : Connection B I → Connection B I
  unfolding fill host_filled
  on_host c = host_filled c (fill c.host.arrivals c.host.conn)

  -- What recovery borrows, with the table in its new generation.
  unfoldable pub begin_recovery : Line → Connection B I → Recovery B I
  unfolding bump_generation
  begin_recovery host c = record {
    host = host;
    gtk = c.gtk;
    objects = bump_generation W.protocol W.ids c.session.objects;
    buffer_flow = c.session.buffer_flow;
    pending_frames = c.session.pending_frames;
    reclaim = c.session.reclaim;
  }

  unfoldable pub end_recovery : Recovery B I → Connection B I → Connection B I
  end_recovery r c = record c {
    gtk = r.gtk;
    host = r.host;
    session = record c.session {
      objects = r.objects;
      buffer_flow = r.buffer_flow;
      pending_frames = r.pending_frames;
      reclaim = r.reclaim;
    };
  }

  -- The grabs are released before traffic resumes.
  unfoldable pub unfreeze : Connection B I → Connection B I
  unfolding synthesize_grab_releases
  unfreeze c =
      let (gtk', grabs') =
        synthesize_grab_releases W c.gtk.conn c.session.objects c.session.grabs in
      record c {
        gtk = record c.gtk { conn = gtk' };
        session = record c.session { grabs = grabs' };
        frozen = false;
      }

  -- The end of a recovery: only a success unfreezes.
  unfoldable pub resume : Recovered B I → Connection B I → Connection B I
  unfolding end_recovery unfreeze
  resume (recovered r) c = unfreeze (end_recovery r c)
  resume (dead_host r) c = end_recovery r c
  resume never_synced c = record c { stopped = some hanging }
  resume panic c = record c { stopped = some crashed }
  resume starved c = c

  unfoldable pub on_reconnect : Line → Connection B I → Connection B I
  unfolding begin_recovery resume recover_state_after_reconnect
  on_reconnect host c =
      resume (recover_state_after_reconnect W c.session.graph (begin_recovery host c)) c

  -- One turn: the compositor's branch is off while frozen, the reconnect's on only then.
  unfoldable pub turn : Connection B I → Event → Connection B I
  unfolding on_gtk on_host on_reconnect
  turn c event = elim c.stopped [
    | some why ↦ c
    | none ↦ elim event [
      | gtk_ready ↦ on_gtk c
      | host_ready ↦ if c.frozen then c else on_host c
      | reconnected host ↦ if c.frozen then on_reconnect host c else c
    ]
  ]

  unfoldable pub run_connection : Connection B I → List Event → Connection B I
  unfolding turn
  run_connection c [] = c
  run_connection c (event ∷ rest) = run_connection (turn c event) rest
