-- ===== src/Relay/Orphans.antt =====
-- src/lib.rs and src/pending_frames.rs: a `frame` request on a surface that does not translate.
use wl_resprox.Prelude.{ℕ, ◌≡◌, refl, ap, ◌∙◌, true, false, Option, none, some, arith, ==_self}
use wl_resprox.Prelude.Map.{contains, contains-add}
use wl_resprox.Wire.Words.{Bytes}
use wl_resprox.Trackers.PendingFrames.{PendingFrameTracker, on_frame_requested}
use wl_resprox.Relay.Session.{World, Session, Direction, client_to_host, host_to_client}
use wl_resprox.Relay.Capture.{Incoming, is_request, is_event}
use wl_resprox.Relay.Observe.{is_stale_release, observe_buffers, observe_callbacks}
use wl_resprox.Relay.Forward.{
  dropped_no_sender, other_side_sender, answer_for_host, roll_back, forward,
}
use wl_resprox.Relay.Process.{finish}

-- A requested callback waits.
waits : (g : ℕ) (t : PendingFrameTracker) → contains g (on_frame_requested t g).awaiting_done ≡ true
unfolding on_frame_requested
waits g t = contains-add g t.awaiting_done g ∙ rw (==_self g) refl

module _ {B I : Type 0} (W : World B I) where
  pending_frames-roll_back :
      (x : Incoming I) (created : Option ℕ) (s : Session B I)
      → (roll_back W x created s).pending_frames ≡ s.pending_frames
  unfolding roll_back
  pending_frames-roll_back x none s = refl
  pending_frames-roll_back x (some g) s = refl

  pending_frames-answer_for_host :
      (x : Incoming I) (created : Option ℕ) (s : Session B I)
      → (answer_for_host W x created s).pending_frames ≡ s.pending_frames
  unfolding answer_for_host
  pending_frames-answer_for_host x none s = ground arith
  pending_frames-answer_for_host x (some g) s = ground arith

  objects-observe_buffers :
      (x : Incoming I) (s : Session B I) → (observe_buffers W x s).objects ≡ s.objects
  unfolding observe_buffers
  objects-observe_buffers x s = ground arith

  observe_callbacks_frame :
      (x : Incoming I) (g : ℕ) (s : Session B I)
      → is_request W x "wl_surface" "frame" ≡ true
      → observe_callbacks W x (some g) s
        ≡ record s { pending_frames = on_frame_requested s.pending_frames g }
  unfolding observe_callbacks
  observe_callbacks_frame x g s h = rw h refl

  is_stale_release_request :
      (x : Incoming I) (s : Session B I) (iface method : _)
      → is_request W x iface method ≡ true
      → is_stale_release W x s ≡ false
  unfolding is_stale_release is_request is_event
  is_stale_release_request x s iface method h = ground arith

  other_side_sender-objects :
      (d : Direction) (g : ℕ) (s t : Session B I)
      → t.objects ≡ s.objects
      → other_side_sender W d g t ≡ other_side_sender W d g s
  unfolding other_side_sender
  other_side_sender-objects client_to_host g s t e = rw e refl
  other_side_sender-objects host_to_client g s t e = refl

  -- A `wl_surface.frame` whose surface has no translation is dropped for want of a sender, but
  -- its callback is then in the set of callbacks that wait for their `done`.
  pub finish-frame_orphan :
      (x : Incoming I) (msg : Bytes) (callback : ℕ) (s : Session B I)
      → is_request W x "wl_surface" "frame" ≡ true
      → other_side_sender W x.direction x.guest_sender_id s ≡ none
      → let (outcome, t) = finish W x msg (some callback) s in
        (outcome ≡ dropped_no_sender) × (contains callback t.pending_frames.awaiting_done ≡ true)
  unfolding finish forward
  finish-frame_orphan x msg callback s h e =
      let seen = observe_buffers W x s in
      let t = observe_callbacks W x (some callback) seen in
      let framed = observe_callbacks_frame x callback seen h in
      let gone : other_side_sender W x.direction x.guest_sender_id t ≡ none =
        other_side_sender-objects x.direction x.guest_sender_id s t
          (ap (λ (u : Session B I). u.objects) framed ∙ objects-observe_buffers x s)
        ∙ e in
      let answered = answer_for_host W x (some callback) t in
      let kept =
        pending_frames-roll_back x (some callback) answered
        ∙ pending_frames-answer_for_host x (some callback) t
        ∙ ap (λ (u : Session B I). u.pending_frames) framed in
      rw (is_stale_release_request x s "wl_surface" "frame" h, gone, forward)
        (
          refl,
          ap (λ (p : PendingFrameTracker). contains callback p.awaiting_done) kept
              ∙ waits callback seen.pending_frames,
        )
