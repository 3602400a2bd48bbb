-- ===== src/Tests/Trackers.antt =====
-- src/pending_frames.rs, src/buffer_flow.rs and src/grab_state.rs, at concrete inputs.
use wl_resprox.Prelude.{none, false, ◌≡◌, true, List, [], ◌∷◌, some}
use wl_resprox.Prelude.Map.{get, contains}
use wl_resprox.Trackers.PendingFrames
use wl_resprox.Trackers.BufferFlow
use wl_resprox.Trackers.Grabs.{active_pointer_grabs, active_keyboard_grabs}
use wl_resprox.Trackers.GrabHistory
use wl_resprox.Trackers.GrabLaws

abbrev frames : List PendingFrames.Call
frames = PendingFrames.frames 4 ∷ PendingFrames.syncs 5 ∷ PendingFrames.dones 4 ∷ []

drain_awaiting_done-run_example :
    (contains 5 (PendingFrames.drain_awaiting_done (PendingFrames.run PendingFrames.new frames)).0
      ≡ true)
    × ((PendingFrames.drain_awaiting_done (PendingFrames.run PendingFrames.new frames)).1
        ≡ PendingFrames.new)
unfolding PendingFrames.open_promise
drain_awaiting_done-run_example = PendingFrames.drain_awaiting_done-run frames 5

abbrev buffers : List BufferFlow.Call
buffers = BufferFlow.commits 3 ∷ BufferFlow.attaches 3 8 ∷ []

drain_in_flight-after_example :
    (contains 8 (BufferFlow.drain_in_flight (BufferFlow.after buffers)).0 ≡ true)
    × ((BufferFlow.drain_in_flight (BufferFlow.after buffers)).1.in_flight ≡ [])
    × (get 3 (BufferFlow.drain_in_flight (BufferFlow.after buffers)).1.pending_attach ≡ some 8)
unfolding BufferFlow.held BufferFlow.attached
drain_in_flight-after_example = BufferFlow.drain_in_flight-after buffers 8 3

abbrev inputs : List GrabHistory.Call
inputs =
    GrabHistory.leaves 1
    ∷ GrabHistory.buttons 1 273 0
    ∷ GrabHistory.key_enters 2 7
    ∷ GrabHistory.buttons 1 272 1
    ∷ GrabHistory.buttons 1 273 1
    ∷ GrabHistory.enters 1 7
    ∷ []

active_grabs-after_example :
    (get 1 (active_pointer_grabs (GrabHistory.after inputs))
      ≡ some (record { entered_surface = none; pressed_buttons = 272 ∷ [] }))
    × (contains 273 (GrabHistory.pressed 1 inputs) ≡ false)
    × (get 2 (active_keyboard_grabs (GrabHistory.after inputs)) ≡ some 7)
unfolding GrabHistory.grab_of GrabHistory.key_focus GrabHistory.focus GrabHistory.pressed
    GrabHistory.is_down contains wl_resprox.Prelude.Map.discard
active_grabs-after_example = GrabLaws.active_grabs-after inputs 1 273 2
