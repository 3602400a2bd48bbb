-- ===== src/Recovery/State.antt =====
-- src/lib.rs: what `recover_state_after_reconnect` is handed, and the request that every recipe sends.
use Prim.Native.String.{String}
use wl_resprox.Prelude.{ℕ, Bool, false, List, Option, some, get_elem?}
use wl_resprox.Wire.Header.{build_message}
use wl_resprox.Wire.Encode.{ArgumentType, WaylandValue, ok, err, encode_arguments}
use wl_resprox.Protocol.{MessageDesc, request_opcode}
use wl_resprox.Shadow.Table.{ShadowTable}
use wl_resprox.Trackers.PendingFrames.{PendingFrameTracker}
use wl_resprox.Trackers.BufferFlow.{BufferFlowTracker}
use wl_resprox.Relay.Session.{World, ReclaimState}
use wl_resprox.Relay.Capture.{◌>>=◌}
use wl_resprox.Connection.Line.{Line, send}

pub record Recovery (B I : Type 0) : Type 0 where
  pub host : Line
  pub gtk : Line
  pub objects : ShadowTable B I
  pub buffer_flow : BufferFlowTracker
  pub pending_frames : PendingFrameTracker
  pub reclaim : ReclaimState

-- How a recipe ends: passed over by a `continue`; with a new object on the host, of this id and
-- interface; or in an `expect` that fails.
pub data Step (B I : Type 0) : Type 0 where
  skipped : Recovery B I → Step B I
  created : (host_id : ℕ) (child : I) → Recovery B I → Step B I
  panicked : Step B I

module _ {B I : Type 0} (W : World B I) where
  -- `request_opcode`, and the entry that it indexes.
  unfoldable pub request_named : I → String → Option (ℕ × MessageDesc I)
  unfolding request_opcode
  request_named interface name = do
    opcode ← request_opcode W.protocol interface name
    desc ← get_elem? (W.protocol.requests interface) opcode
    some (opcode, desc)

  -- Encode, then write: false on an error of either.
  unfoldable pub issue : Line → ℕ → ℕ → List ArgumentType → List WaylandValue → Bool × Line
  unfolding encode_arguments build_message send
  issue line sender opcode signature values = elim (encode_arguments W.endian signature values) [
    | ok payload fds ↦ send line (build_message W.endian sender opcode payload) fds
    | err x ↦ (false, line)
  ]
