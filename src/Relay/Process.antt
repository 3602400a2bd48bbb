-- ===== src/Relay/Process.antt =====
-- src/lib.rs: one message through the relay, and the loop over the messages that have arrived.
use wl_resprox.Prelude.{
  ℕ, zero, suc, Bool, not, ◌&&◌, List, [], ◌∷◌, Option, none, some, if◌then◌else◌, drop, get_elem?,
}
use wl_resprox.Wire.Words.{Bytes}
use wl_resprox.Wire.Header.{MessageHeader, parse, take_message, header_len}
use wl_resprox.Wire.Walk.{SignatureWalk, ok, err, walk_signature}
use wl_resprox.Protocol.{MessageDesc}
use wl_resprox.Shadow.Table.{ShadowTable, guest_id, interface}
use wl_resprox.Shadow.BiMap.{is_some_of}
use wl_resprox.Relay.Session.{World, Session, Direction, client_to_host, host_to_client}
use wl_resprox.Relay.Splice.{handle_synthetic_clipboard_event}
use wl_resprox.Relay.Capture.{Incoming, is_client_to_host, ◌>>=◌}
use wl_resprox.Relay.NewId.{original_object_values, translate_objects, handle_new_id}
use wl_resprox.Relay.Observe.{
  handle_delete_id, observe_grabs, reclaim_clipboard, observe_toplevel, observe_sizes,
  is_stale_release, observe_buffers, observe_callbacks,
}
use wl_resprox.Relay.Forward.{
  Outcome, dropped_unknown, dropped_untranslatable, dropped_unresolvable_child,
  dropped_untracked_delete_id, dropped_stale_generation, dropped_parse_error, synthetic_clipboard,
  forward,
}

module _ {B I : Type 0} (W : World B I) where
  -- The sender in the client's ids.
  unfoldable pub guest_sender : Direction → ℕ → ShadowTable B I → Option ℕ
  unfolding guest_id
  guest_sender client_to_host sender objects = some sender
  guest_sender host_to_client sender objects = guest_id W.protocol W.ids objects sender

  -- The signature's entry for an opcode: requests and events have tables of their own.
  unfoldable pub message_desc : Direction → I → ℕ → Option (MessageDesc I)
  message_desc client_to_host iface opcode = get_elem? (W.protocol.requests iface) opcode
  message_desc host_to_client iface opcode = get_elem? (W.protocol.events iface) opcode

  -- After the buffers are seen to: the callbacks, and the way out.
  unfoldable pub finish : Incoming I → Bytes → Option ℕ → Session B I → Outcome × Session B I
  unfolding is_stale_release observe_buffers observe_callbacks forward
  finish x msg created s =
      if is_stale_release W x s
      then (dropped_stale_generation, s)
      else forward W x msg created (observe_callbacks W x created (observe_buffers W x s))

  -- What is learnt from the message, which may build it anew.
  unfoldable pub observe_kept : Incoming I → Bytes → Option ℕ → Session B I → Outcome × Session B I
  unfolding observe_grabs reclaim_clipboard observe_toplevel observe_sizes finish
  observe_kept x msg created s =
      let seen = reclaim_clipboard W x msg (observe_grabs W x msg s) in
      let (msg', named) = observe_toplevel W x msg seen in
      finish x msg' created (observe_sizes W x msg' named)

  -- After the new object: `delete_id`, then the rest.
  unfoldable pub observe : Incoming I → Bytes → Option ℕ → Session B I → Outcome × Session B I
  unfolding handle_delete_id observe_kept
  observe x msg created s =
      let (kept, s') = handle_delete_id W x msg s in
      elim kept [
        | none ↦ (dropped_untracked_delete_id, s')
        | some msg' ↦ observe_kept x msg' created s'
      ]

  -- After the object arguments: the new object.
  unfoldable pub relay_translated : Incoming I → Bytes → Session B I → Outcome × Session B I
  unfolding handle_new_id observe
  relay_translated x msg s =
      let (created, s') = handle_new_id W x msg s in
      elim created [
        | none ↦ (dropped_unresolvable_child, s')
        | some (msg', guest) ↦ observe x msg' guest s'
      ]

  -- A message with its signature walked.
  unfoldable pub relay_walked : Incoming I → Bytes → Session B I → Outcome × Session B I
  unfolding translate_objects relay_translated
  relay_walked x msg s =
      elim (translate_objects W x.direction s.objects x.walk.object_offsets msg) [
        | none ↦ (dropped_untranslatable, s)
        | some translated ↦ relay_translated x translated s
      ]

  unfoldable pub incoming :
      Direction → MessageHeader → ℕ → I → MessageDesc I → Bytes → SignatureWalk → Incoming I
  unfolding original_object_values
  incoming dir header sender iface desc msg walk = record {
    direction = dir;
    guest_sender_id = sender;
    interface = iface;
    desc = desc;
    header = header;
    walk = walk;
    objects = original_object_values W msg walk.object_offsets;
  }

  -- A message of a known object and opcode.
  unfoldable pub relay_known :
      Direction
      → MessageHeader
      → ℕ
      → I
      → MessageDesc I
      → Bytes
      → Session B I
      → Outcome × Session B I
  unfolding walk_signature incoming relay_walked
  relay_known dir header sender iface desc msg s =
      elim (walk_signature W.endian (drop header_len msg) desc.signature) [
        | err e ↦ (dropped_parse_error, s)
        | ok end walk ↦ relay_walked (incoming dir header sender iface desc msg walk) msg s
      ]

  -- A sender's interface, by its guest id, and the entry of the opcode.
  unfoldable pub lookup_desc :
      Direction → MessageHeader → Session B I → Option (ℕ × I × MessageDesc I)
  unfolding guest_sender interface message_desc
  lookup_desc dir header s = do
    sender ← guest_sender dir header.sender_id s.objects
    iface ← interface W.protocol W.ids s.objects sender
    desc ← message_desc dir iface header.opcode
    some (sender, iface, desc)

  -- The event is one of the proxy's own data source.
  unfoldable pub is_synthetic : Direction → MessageHeader → Session B I → Bool
  unfolding is_client_to_host
  is_synthetic dir header s =
      not (is_client_to_host dir) && is_some_of header.sender_id s.reclaim.active_source_host_id

  -- A message with its header.
  unfoldable pub relay_parsed :
      Direction → MessageHeader → Bytes → Session B I → Outcome × Session B I
  unfolding lookup_desc relay_known
  relay_parsed dir header msg s = elim (lookup_desc dir header s) [
    | none ↦ (dropped_unknown, s)
    | some (sender, iface, desc) ↦ relay_known dir header sender iface desc msg s
  ]

  -- The body of the loop, but for the bytes that it consumes.
  unfoldable pub relay_message : Direction → Bytes → Session B I → Outcome × Session B I
  unfolding parse is_synthetic handle_synthetic_clipboard_event relay_parsed
  relay_message dir msg s = elim (parse W.endian msg) [
    | none ↦ (dropped_parse_error, s)
    | some header ↦
        if is_synthetic dir header s
        then (synthetic_clipboard, handle_synthetic_clipboard_event W msg header.opcode s)
        else relay_parsed dir header msg s
  ]

  -- `src.read_buf.drain(..consumed)`.
  unfoldable pub consume : ℕ → Session B I → Session B I
  consume n s = record s { src = record s.src { read_buf = drop n s.src.read_buf } }

  -- The loop, on fuel: `none` if the fuel runs out. With it come the outcomes, in order.
  unfoldable pub relay_ready_messages :
      ℕ → Direction → Session B I → Option (List Outcome × Session B I)
  unfolding take_message relay_message consume
  relay_ready_messages zero dir s = none
  relay_ready_messages (suc fuel) dir s = elim (take_message W.endian s.src.read_buf) [
    | none ↦ some ([], s)
    | some (msg, consumed) ↦
        let (outcome, s') = relay_message dir msg s in
        elim (relay_ready_messages fuel dir (consume consumed s')) [
          | none ↦ none
          | some (outcomes, final) ↦ some (outcome ∷ outcomes, final)
        ]
  ]
