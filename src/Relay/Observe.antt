-- ===== src/Relay/Observe.antt =====
-- src/lib.rs: what the relay learns from a message before it sends it on.
use wl_resprox.Prelude.{
  ℕ, Bool, false, not, ◌&&◌, ◌||◌, List, [], ◌∷◌, Option, none, some, if◌then◌else◌, drop,
}
use wl_resprox.Wire.Words.{Bytes, read_u32, write_u32_at}
use wl_resprox.Wire.Header.{header_len, build_message}
use wl_resprox.Wire.Text.{put_str, read_str}
use wl_resprox.Interfaces.{bytes_eq}
use wl_resprox.Shadow.Table.{guest_id, remove_guest, is_current_generation}
use wl_resprox.Recreation.Graph
use wl_resprox.Trackers.Grabs.{
  on_pointer_enter, on_pointer_leave, on_pointer_button, on_keyboard_enter, on_keyboard_leave,
}
use wl_resprox.Trackers.BufferFlow.{on_attach, on_commit, on_release}
use wl_resprox.Trackers.PendingFrames.{on_frame_requested, on_sync_requested, on_done_received}
use wl_resprox.Relay.Session.{World, Session, DesktopAppIndex}
use wl_resprox.Relay.Splice.{cache_get, attempt_clipboard_splice}
use wl_resprox.Relay.Capture.{Incoming, is_message, is_request, is_event, first, ◌>>=◌}

abbrev pub payload_of : Bytes → Bytes
payload_of msg = drop header_len msg

unfoldable pub any_eq : Bytes → List Bytes → Bool
unfolding bytes_eq
any_eq a [] = false
any_eq a (b ∷ bs) = bytes_eq b a || any_eq a bs

unfoldable pub has_id : DesktopAppIndex → Bytes → Bool
unfolding any_eq
has_id index app_id = any_eq app_id index.ids

unfoldable pub resolve_by_binary : DesktopAppIndex → Bytes → Option Bytes
unfolding cache_get
resolve_by_binary index binary = cache_get binary index.by_binary

module _ {B I : Type 0} (W : World B I) where
  -- `delete_id` names a host id: its object is forgotten and the guest id put in its place. `none`
  -- for an id that has no guest id; the message is dropped.
  unfoldable pub handle_delete_id : Incoming I → Bytes → Session B I → Option Bytes × Session B I
  unfolding is_message read_u32 write_u32_at guest_id remove_guest
  handle_delete_id x msg s =
      if is_message W x "wl_display" "delete_id"
      then (elim (read_u32 W.endian msg header_len) [
        | none ↦ (some msg, s)
        | some host_deleted ↦ elim (guest_id W.protocol W.ids s.objects host_deleted) [
          | none ↦ (none, s)
          | some guest_deleted ↦ (
            some (write_u32_at W.endian header_len guest_deleted msg),
            record s {
              objects = remove_guest W.protocol W.ids s.objects guest_deleted;
              graph = Graph.remove s.graph guest_deleted;
            },
          )
        ]
      ])
      else (some msg, s)

  -- Focus and buttons. `enter` has a serial and the surface; `button` a serial, a time, the button
  -- and its state.
  unfoldable pub observe_grabs : Incoming I → Bytes → Session B I → Session B I
  unfolding is_event read_u32 on_pointer_enter on_pointer_leave on_pointer_button on_keyboard_enter
      on_keyboard_leave
  observe_grabs x msg s =
      let p : Bytes = payload_of msg in
      let id : ℕ = x.guest_sender_id in
      if is_event W x "wl_pointer" "enter"
      then (elim (read_u32 W.endian p 4) [
        | none ↦ s
        | some surface ↦ record s { grabs = on_pointer_enter s.grabs id surface }
      ])
      else if is_event W x "wl_pointer" "leave"
      then record s { grabs = on_pointer_leave s.grabs id }
      else if is_event W x "wl_pointer" "button"
      then (elim (read_u32 W.endian p 8) [
        | none ↦ s
        | some button ↦ elim (read_u32 W.endian p 12) [
          | none ↦ s
          | some state ↦ record s { grabs = on_pointer_button s.grabs id button state }
        ]
      ])
      else if is_event W x "wl_keyboard" "enter"
      then (elim (read_u32 W.endian p 4) [
        | none ↦ s
        | some surface ↦ record s { grabs = on_keyboard_enter s.grabs id surface }
      ])
      else if is_event W x "wl_keyboard" "leave"
      then record s { grabs = on_keyboard_leave s.grabs id }
      else s

  -- The events that carry an input serial as their first word.
  unfoldable pub carries_serial : Incoming I → Bool
  unfolding is_event
  carries_serial x =
      is_event W x "wl_pointer" "enter"
      || is_event W x "wl_pointer" "leave"
      || is_event W x "wl_pointer" "button"
      || is_event W x "wl_keyboard" "enter"
      || is_event W x "wl_keyboard" "leave"
      || is_event W x "wl_keyboard" "key"
      || is_event W x "wl_touch" "down"

  unfoldable pub splice_at : Option ℕ → Session B I → Session B I
  unfolding attempt_clipboard_splice
  splice_at none s = s
  splice_at (some serial) s =
      let (src, objects, reclaim) =
        attempt_clipboard_splice W s.clipboard_cache serial (s.src, s.objects, s.reclaim) in
      record s { src = src; objects = objects; reclaim = reclaim }

  unfoldable pub reclaim_clipboard : Incoming I → Bytes → Session B I → Session B I
  unfolding carries_serial read_u32 splice_at
  reclaim_clipboard x msg s =
      if s.reclaim.pending && carries_serial x
      then splice_at (read_u32 W.endian (payload_of msg) 0) s
      else s

  -- The name of an installed desktop file that runs the client's binary, for a client whose own
  -- `app_id` is none and differs from it.
  unfoldable pub corrected_app_id : Bytes → Option Bytes
  unfolding has_id resolve_by_binary bytes_eq
  corrected_app_id app_id = if has_id W.desktop_apps app_id then none else do
    pid ← W.client_pid
    binary ← W.binary_name_for_pid pid
    resolved ← resolve_by_binary W.desktop_apps binary
    if bytes_eq resolved app_id then none else some resolved

  -- `set_title` and `set_app_id`; the latter may be built anew with the corrected name.
  unfoldable pub observe_toplevel : Incoming I → Bytes → Session B I → Bytes × Session B I
  unfolding is_request read_str corrected_app_id build_message put_str Graph.update_toplevel_title
      Graph.update_toplevel_app_id
  observe_toplevel x msg s =
      let id : ℕ = x.guest_sender_id in
      if is_request W x "xdg_toplevel" "set_title"
      then (elim (read_str W.endian (payload_of msg) 0) [
        | none ↦ (msg, s)
        | some (title, next) ↦
            (msg, record s { graph = Graph.update_toplevel_title s.graph id title })
      ])
      else if is_request W x "xdg_toplevel" "set_app_id"
      then (elim (read_str W.endian (payload_of msg) 0) [
        | none ↦ (msg, s)
        | some (app_id, next) ↦ elim (corrected_app_id app_id) [
          | none ↦ (msg, record s { graph = Graph.update_toplevel_app_id s.graph id app_id })
          | some corrected ↦ (
            build_message W.endian x.header.sender_id x.header.opcode
                (put_str W.endian [] corrected),
            record s { graph = Graph.update_toplevel_app_id s.graph id corrected },
          )
        ]
      ])
      else (msg, s)

  unfoldable pub observe_sizes : Incoming I → Bytes → Session B I → Session B I
  unfolding is_request read_u32 Graph.update_shm_pool_size Graph.update_viewport_destination
  observe_sizes x msg s =
      let p : Bytes = payload_of msg in
      let id : ℕ = x.guest_sender_id in
      if is_request W x "wl_shm_pool" "resize"
      then (elim (read_u32 W.endian p 0) [
        | none ↦ s
        | some size ↦ record s { graph = Graph.update_shm_pool_size s.graph id size }
      ])
      else if is_request W x "wp_viewport" "set_destination"
      then (elim (read_u32 W.endian p 0) [
        | none ↦ s
        | some width ↦ elim (read_u32 W.endian p 4) [
          | none ↦ s
          | some height ↦ record s {
            graph = Graph.update_viewport_destination s.graph id width height;
          }
        ]
      ])
      else s

  -- A release of a buffer of an earlier generation; it is dropped.
  unfoldable pub is_stale_release : Incoming I → Session B I → Bool
  unfolding is_event is_current_generation
  is_stale_release x s =
      is_event W x "wl_buffer" "release"
      && not (is_current_generation W.protocol W.ids s.objects x.guest_sender_id)

  unfoldable pub observe_buffers : Incoming I → Session B I → Session B I
  unfolding is_request is_event on_attach on_commit on_release
  observe_buffers x s =
      let id : ℕ = x.guest_sender_id in
      if is_request W x "wl_surface" "attach"
      then record s {
        buffer_flow = on_attach s.buffer_flow id (elim (first x.objects) [ none ↦ 0 | some b ↦ b ]);
      }
      else if is_request W x "wl_surface" "commit"
      then record s { buffer_flow = on_commit s.buffer_flow id }
      else if is_event W x "wl_buffer" "release"
      then record s { buffer_flow = on_release s.buffer_flow id }
      else s

  -- `created` is the guest id of the object that the message creates.
  unfoldable pub observe_callbacks : Incoming I → Option ℕ → Session B I → Session B I
  unfolding is_request is_event on_frame_requested on_sync_requested on_done_received
  observe_callbacks x created s =
      if is_request W x "wl_surface" "frame"
      then (elim created [
        | none ↦ s
        | some id ↦ record s { pending_frames = on_frame_requested s.pending_frames id }
      ])
      else if is_request W x "wl_display" "sync"
      then (elim created [
        | none ↦ s
        | some id ↦ record s { pending_frames = on_sync_requested s.pending_frames id }
      ])
      else if is_event W x "wl_callback" "done"
      then record s { pending_frames = on_done_received s.pending_frames x.guest_sender_id }
      else s
