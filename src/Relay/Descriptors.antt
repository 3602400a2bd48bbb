-- ===== src/Relay/Descriptors.antt =====
-- src/lib.rs: what becomes of a message and of its descriptors, through the whole of the relay.
use wl_resprox.Prelude.{ℕ, refl, ◌∙◌, true, false, Option, none, some, if◌then◌else◌}
use wl_resprox.Wire.Words.{Bytes}
use wl_resprox.Relay.Session.{World, Session}
use wl_resprox.Relay.Capture.{Incoming}
use wl_resprox.Relay.NewId.{translate_objects, handle_new_id}
use wl_resprox.Relay.Observe.{
  handle_delete_id, observe_grabs, reclaim_clipboard, observe_toplevel, observe_sizes,
  is_stale_release, observe_buffers, observe_callbacks,
}
use wl_resprox.Relay.Forward.{
  dropped_untranslatable, dropped_unresolvable_child, dropped_untracked_delete_id,
  dropped_stale_generation, dropped_no_sender, other_side_sender, roll_back, answer_for_host,
  send_on, forward,
}
use wl_resprox.Relay.Process.{finish, observe_kept, observe, relay_translated, relay_walked}
use wl_resprox.Relay.Queue.{
  inputs, inputs-handle_delete_id, inputs-observe_grabs, inputs-observe_toplevel,
  inputs-observe_sizes, inputs-observe_buffers, inputs-observe_callbacks, inputs-handle_new_id,
  inputs-roll_back, inputs-answer_for_host, inputs-reclaim_clipboard,
}
use wl_resprox.Relay.Delivery.{Sent, SentBy, Sent-before, send_on-Sent}

module _ {B I : Type 0} (W : World B I) where
  forward-Sent :
      (x : Incoming I) (msg : Bytes) (created : Option ℕ) (s : Session B I)
      → SentBy W x.walk.fd_count s (forward W x msg created s)
  unfolding Sent forward
  forward-Sent x msg created s =
      elim (other_side_sender W x.direction x.guest_sender_id s)
        as (λ o. SentBy W x.walk.fd_count s (elim o [
          | none ↦ (dropped_no_sender, roll_back W x created (answer_for_host W x created s))
          | some sender ↦ send_on W x sender msg created s
        ])) [
          | none ↦
              inputs-roll_back W x created (answer_for_host W x created s)
              ∙ inputs-answer_for_host W x created s
          | some sender ↦ send_on-Sent W x sender msg created s
        ]

  finish-Sent :
      (x : Incoming I) (msg : Bytes) (created : Option ℕ) (s : Session B I)
      → SentBy W x.walk.fd_count s (finish W x msg created s)
  unfolding Sent finish
  finish-Sent x msg created s =
      let buffers = observe_buffers W x s in
      let t = observe_callbacks W x created buffers in
      elim (is_stale_release W x s)
        as (λ b.
          SentBy W x.walk.fd_count s
            (if b then (dropped_stale_generation, s) else forward W x msg created t)) [
              | true ↦ refl
              | false ↦
                  Sent-before W x.walk.fd_count (forward W x msg created t).0 (inputs s) (inputs t)
                    _ (inputs-observe_callbacks W x created buffers ∙ inputs-observe_buffers W x s)
                    (forward-Sent x msg created t)
            ]

  observe_kept-Sent :
      (x : Incoming I) (msg : Bytes) (created : Option ℕ) (s : Session B I)
      → SentBy W x.walk.fd_count s (observe_kept W x msg created s)
  unfolding observe_kept
  observe_kept-Sent x msg created s =
      let grabbed = observe_grabs W x msg s in
      let seen = reclaim_clipboard W x msg grabbed in
      let (msg', named) = observe_toplevel W x msg seen in
      let t = observe_sizes W x msg' named in
      Sent-before W x.walk.fd_count (finish W x msg' created t).0 (inputs s) (inputs t) _
        (inputs-observe_sizes W x msg' named
          ∙ inputs-observe_toplevel W x msg seen
          ∙ inputs-reclaim_clipboard W x msg grabbed
          ∙ inputs-observe_grabs W x msg s)
        (finish-Sent x msg' created t)

  observe-Sent :
      (x : Incoming I) (msg : Bytes) (created : Option ℕ) (s : Session B I)
      → SentBy W x.walk.fd_count s (observe W x msg created s)
  unfolding Sent observe
  observe-Sent x msg created s =
      let (kept, t) = handle_delete_id W x msg s in
      let same = inputs-handle_delete_id W x msg s in
      elim kept
        as (λ o. SentBy W x.walk.fd_count s (elim o [
          | none ↦ (dropped_untracked_delete_id, t)
          | some msg' ↦ observe_kept W x msg' created t
        ])) [
          | none ↦ same
          | some msg' ↦
              Sent-before W x.walk.fd_count (observe_kept W x msg' created t).0 (inputs s)
                (inputs t) _ same (observe_kept-Sent x msg' created t)
        ]

  relay_translated-Sent :
      (x : Incoming I) (msg : Bytes) (s : Session B I)
      → SentBy W x.walk.fd_count s (relay_translated W x msg s)
  unfolding Sent relay_translated
  relay_translated-Sent x msg s =
      let (created, t) = handle_new_id W x msg s in
      let same = inputs-handle_new_id W x msg s in
      elim created
        as (λ o. SentBy W x.walk.fd_count s (elim o [
          | none ↦ (dropped_unresolvable_child, t)
          | some (msg', guest) ↦ observe W x msg' guest t
        ])) [
          | none ↦ same
          | some (msg', guest) ↦
              Sent-before W x.walk.fd_count (observe W x msg' guest t).0 (inputs s) (inputs t) _
                same (observe-Sent x msg' guest t)
        ]

  -- A message whose signature has `n` descriptors: if it is relayed, it takes `n` descriptors off
  -- the queue and is one write; if only a dead host keeps it from being written, it takes them all
  -- the same; if it is dropped for any other reason, the descriptors stay in the queue. The bytes
  -- that arrived are left alone.
  pub relay_walked-Sent :
      (x : Incoming I) (msg : Bytes) (s : Session B I)
      → Sent x.walk.fd_count
          (inputs s)
          (relay_walked W x msg s).0
          (inputs (relay_walked W x msg s).1)
  unfolding Sent relay_walked
  relay_walked-Sent x msg s =
      elim (translate_objects W x.direction s.objects x.walk.object_offsets msg)
        as (λ o. SentBy W x.walk.fd_count s (elim o [
          | none ↦ (dropped_untranslatable, s)
          | some translated ↦ relay_translated W x translated s
        ])) [ none ↦ refl | some translated ↦ relay_translated-Sent x translated s ]
