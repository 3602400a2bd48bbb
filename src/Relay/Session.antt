-- ===== src/Relay/Session.antt =====
-- src/lib.rs: a connection, and the state that `run_connection` hands to every relay call.
use wl_resprox.Prelude.{ℕ, Bool, true, false, List, [], ◌∷◌, ◌++◌, Option, if◌then◌else◌}
use wl_resprox.Prelude.Map.{Map}
use wl_resprox.Wire.Words.{Bytes, Endian}
use wl_resprox.Protocol.{Protocol}
use wl_resprox.Shadow.BiMap.{BiMap}
use wl_resprox.Shadow.Table.{ShadowTable}
use wl_resprox.Recreation.Graph.{RecreationGraph, DmabufPlane}
use wl_resprox.Trackers.PendingFrames.{PendingFrameTracker}
use wl_resprox.Trackers.BufferFlow.{BufferFlowTracker}
use wl_resprox.Trackers.Grabs.{GrabTracker}

pub data Direction : Type 0 where
  client_to_host host_to_client : Direction

-- The bytes and descriptors that arrived and are not consumed, and the messages written, oldest
-- first. `answers` is what the system will say to the next writes, `false` for an error; when it
-- runs out, writes succeed. A failed write leaves no message in `sent`.
pub record Conn : Type 0 where
  pub read_buf : Bytes
  pub read_fds : List ℕ
  pub sent : List (Bytes × List ℕ)
  pub answers : List Bool

unfoldable pub write_message : Conn → Bytes → List ℕ → Bool × Conn
write_message c msg fds = elim c.answers [
  | [] ↦ (true, record c { sent = c.sent ++ (msg, fds) ∷ [] })
  | ok ∷ rest ↦
      if ok
      then (true, record c { sent = c.sent ++ (msg, fds) ∷ []; answers = rest })
      else (false, record c { answers = rest })
]

-- src/desktop_apps.rs: the index, once it is built.
pub record DesktopAppIndex : Type 0 where
  pub ids : List Bytes
  pub by_binary : List (Bytes × Bytes)

-- src/clipboard.rs.
pub record ReclaimState : Type 0 where
  pub pending : Bool
  pub data_device_manager_global : Option (ℕ × ℕ)
  pub active_source_host_id : Option ℕ

-- What a session does not change: the protocol tables, the id maps, the byte order, and the answers
-- of the system. `binary_name_for_pid` reads /proc; `start_tee` gives the descriptor that stands in
-- for a pipe, or none if the system refuses; `is_pipe` tells whether a descriptor can be written to
-- as a pipe.
pub record World (B I : Type 0) : Type 0 where
  pub protocol : Protocol I
  pub ids : BiMap B
  pub endian : Endian
  pub client_pid : Option ℕ
  pub binary_name_for_pid : ℕ → Option Bytes
  pub desktop_apps : DesktopAppIndex
  pub start_tee : ℕ → Option ℕ
  pub is_pipe : ℕ → Bool

-- `tees` are the spawned copies of a clipboard transfer: the pipe, its stand-in and the type.
-- `serves` are the spawned writes of cached content to a pipe.
pub record Session (B I : Type 0) : Type 0 where
  pub src : Conn
  pub dst : Option Conn
  pub objects : ShadowTable B I
  pub graph : RecreationGraph I
  pub grabs : GrabTracker
  pub buffer_flow : BufferFlowTracker
  pub pending_frames : PendingFrameTracker
  pub pending_dmabuf_planes : Map (ℕ × List DmabufPlane)
  pub clipboard_cache : List (Bytes × Bytes)
  pub reclaim : ReclaimState
  pub tees : List (ℕ × ℕ × Bytes)
  pub serves : List (ℕ × Bytes)
