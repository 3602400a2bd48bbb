-- ===== src/Connection/Thaw.antt =====
-- src/lib.rs: `run_connection` when the compositor is back.
use wl_resprox.Prelude.{◌≡◌, true, []}
use wl_resprox.Trackers.Grabs.{GrabTracker, active_pointer_grabs, active_keyboard_grabs}
use wl_resprox.Trackers.PendingFrames.{PendingFrameTracker}
use wl_resprox.Trackers.BufferFlow.{BufferFlowTracker}
use wl_resprox.Relay.Session.{World, Conn}
use wl_resprox.Relay.Releases.{grab_messages, send_numbered}
use wl_resprox.Connection.Line.{Line}
use wl_resprox.Recovery.State.{Recovery}
use wl_resprox.Recovery.Replay.{Replayed, finished, aborted}
use wl_resprox.Recovery.Owed.{owed_messages, send_all}
use wl_resprox.Recovery.Recover.{Recovered, recovered}
use wl_resprox.Connection.Loop.{Connection}

module _ {B I : Type 0} (W : World B I) where
  -- Nothing is left to answer for, the clipboard is to be reclaimed, and the last that the client got
  -- are the answers for what was in flight and awaited before.
  abbrev pub IsSettled : BufferFlowTracker → PendingFrameTracker → Recovery B I → Type 0
  IsSettled flow frames r =
      (r.buffer_flow.in_flight ≡ [])
      × (r.pending_frames.awaiting_done ≡ [])
      × (r.reclaim.pending ≡ true)
      × ((earlier : Conn) × (r.gtk.conn
            ≡ send_all (owed_messages W r.objects flow.in_flight frames.awaiting_done) earlier))

  abbrev Settles : BufferFlowTracker → PendingFrameTracker → Recovered B I → Type 0
  Settles flow frames (recovered r) = IsSettled flow frames r
  Settles flow frames _ = Unit

  -- Replay leaves the buffers in flight and the callbacks awaited as they were.
  abbrev Owing : BufferFlowTracker → PendingFrameTracker → Replayed B I → Type 0
  Owing flow frames (finished s) = (s.buffer_flow ≡ flow) × (s.pending_frames ≡ frames)
  Owing flow frames aborted = Unit

  -- The last that the client got are the answers for these buffers and callbacks, and then what
  -- undoes these grabs, with serials from 1.
  abbrev pub Told : BufferFlowTracker → PendingFrameTracker → GrabTracker → Connection B I → Type 0
  Told flow frames grabs c =
      (earlier : Conn) × (c.gtk.conn
        ≡ (send_numbered (grab_messages W c.session.objects grabs) (
          1,
          send_all (owed_messages W c.session.objects flow.in_flight frames.awaiting_done) earlier,
        )).1)

  abbrev Thawed : BufferFlowTracker → PendingFrameTracker → GrabTracker → Connection B I → Type 0
  Thawed flow frames grabs c =
      ((active_pointer_grabs c.session.grabs ≡ []) × (active_keyboard_grabs c.session.grabs ≡ []))
      × (c.session.buffer_flow.in_flight ≡ [])
      × (c.session.pending_frames.awaiting_done ≡ [])
      × (c.session.reclaim.pending ≡ true)
      × Told flow frames grabs c
