-- ===== src/Trackers/PendingFrames.antt =====
-- src/pending_frames.rs: the callbacks that still wait for their `done`.
use wl_resprox.Prelude.{ℕ, ◌≡◌, refl, Bool, true, false, List, [], ◌∷◌, if◌then◌else◌, ◌==◌}
use wl_resprox.Prelude.Map.{contains, add, discard, contains-add, contains-discard}

pub record PendingFrameTracker : Type 0 where
  pub awaiting_done : List ℕ

unfoldable pub new : PendingFrameTracker
new = record { awaiting_done = [] }

unfoldable pub on_frame_requested : PendingFrameTracker → ℕ → PendingFrameTracker
on_frame_requested t id = record { awaiting_done = add id t.awaiting_done }

unfoldable pub on_sync_requested : PendingFrameTracker → ℕ → PendingFrameTracker
on_sync_requested t id = record { awaiting_done = add id t.awaiting_done }

unfoldable pub on_done_received : PendingFrameTracker → ℕ → PendingFrameTracker
on_done_received t id = record { awaiting_done = discard id t.awaiting_done }

-- What waited, and the empty tracker.
unfoldable pub drain_awaiting_done : PendingFrameTracker → List ℕ × PendingFrameTracker
drain_awaiting_done t = (t.awaiting_done, record { awaiting_done = [] })

pub data Call : Type 0 where
  frames syncs dones : ℕ → Call
  drains : Call

unfoldable pub step : PendingFrameTracker → Call → PendingFrameTracker
unfolding on_frame_requested on_sync_requested on_done_received drain_awaiting_done
step t (frames id) = on_frame_requested t id
step t (syncs id) = on_sync_requested t id
step t (dones id) = on_done_received t id
step t drains = (drain_awaiting_done t).1

unfoldable pub run : PendingFrameTracker → List Call → PendingFrameTracker
unfolding step
run t [] = t
run t (c ∷ cs) = run (step t c) cs

-- A history leaves a promise open for a callback: its last request comes after its last `done` and
-- after the last drain. `before` says whether one was open at the start.
unfoldable pub open_promise : ℕ → Bool → List Call → Bool
open_promise id before [] = before
open_promise id before (frames j ∷ cs) = open_promise id (if id == j then true else before) cs
open_promise id before (syncs j ∷ cs) = open_promise id (if id == j then true else before) cs
open_promise id before (dones j ∷ cs) = open_promise id (if id == j then false else before) cs
open_promise id before (drains ∷ cs) = open_promise id false cs

run_open :
    (t : PendingFrameTracker) (cs : List Call) (id : ℕ)
    → contains id (run t cs).awaiting_done ≡ open_promise id (contains id t.awaiting_done) cs
unfolding run open_promise contains
run_open t [] id = refl
run_open t (frames j ∷ cs) id =
    rw (← contains-add j t.awaiting_done id) (run_open (step t (frames j)) cs id)
run_open t (syncs j ∷ cs) id =
    rw (← contains-add j t.awaiting_done id) (run_open (step t (syncs j)) cs id)
run_open t (dones j ∷ cs) id =
    rw (← contains-discard j t.awaiting_done id) (run_open (step t (dones j)) cs id)
run_open t (drains ∷ cs) id = run_open (step t drains) cs id

-- After any calls on a new tracker, a drain reports exactly the callbacks whose promise is open,
-- and leaves a new tracker.
pub drain_awaiting_done-run :
    (cs : List Call) (id : ℕ)
    → (contains id (drain_awaiting_done (run new cs)).0 ≡ open_promise id false cs)
      × ((drain_awaiting_done (run new cs)).1 ≡ new)
unfolding drain_awaiting_done new contains
drain_awaiting_done-run cs id = (run_open new cs id, refl)
