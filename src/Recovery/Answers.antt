-- ===== src/Recovery/Answers.antt =====
-- src/lib.rs: what the client is still owed when recovery is through with the recipes.
use wl_resprox.Prelude.{ℕ, List, [], ◌∷◌, Option, none, some}
use wl_resprox.Protocol.{event_opcode}
use wl_resprox.Shadow.Table.{ShadowTable, host_id, interface}
use wl_resprox.Trackers.PendingFrames.{drain_awaiting_done}
use wl_resprox.Trackers.BufferFlow.{drain_in_flight}
use wl_resprox.Relay.Session.{World, Conn}
use wl_resprox.Relay.Synthesize.{send_event, synthesize_frame_done}
use wl_resprox.Relay.Capture.{◌>>=◌}
use wl_resprox.Recovery.State.{Recovery}

module _ {B I : Type 0} (W : World B I) where
  -- The opcode of `release`, for a buffer that has an interface and a host id.
  unfoldable pub release_opcode : ShadowTable B I → ℕ → Option ℕ
  unfolding interface host_id event_opcode
  release_opcode objects buffer = do
    iface ← interface W.protocol W.ids objects buffer
    host ← host_id W.protocol W.ids objects buffer
    event_opcode W.protocol iface "release"

  unfoldable pub release_buffers : ShadowTable B I → List ℕ → Conn → Conn
  unfolding release_opcode send_event
  release_buffers objects [] gtk = gtk
  release_buffers objects (buffer ∷ rest) gtk = elim (release_opcode objects buffer) [
    | none ↦ release_buffers objects rest gtk
    | some opcode ↦ release_buffers objects rest (send_event W gtk buffer opcode [])
  ]

  -- A callback without an interface gets no event.
  unfoldable pub answer_frames : ShadowTable B I → List ℕ → Conn → Conn
  unfolding synthesize_frame_done
  answer_frames objects [] gtk = gtk
  answer_frames objects (callback ∷ rest) gtk =
      answer_frames objects rest (synthesize_frame_done W gtk objects callback)

  unfoldable pub answer : Recovery B I → Recovery B I
  unfolding drain_in_flight drain_awaiting_done release_buffers answer_frames
  answer s =
      let (buffers, buffer_flow') = drain_in_flight s.buffer_flow in
      let (callbacks, pending_frames') = drain_awaiting_done s.pending_frames in
      let released : Conn = release_buffers s.objects buffers s.gtk.conn in
      record s {
        buffer_flow = buffer_flow';
        pending_frames = pending_frames';
        gtk = record s.gtk { conn = answer_frames s.objects callbacks released };
      }
