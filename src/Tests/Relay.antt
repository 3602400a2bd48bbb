-- ===== src/Tests/Relay.antt =====
-- src/lib.rs, at concrete inputs.
use wl_resprox.Prelude.{
  ◌%◌, ◌^◌, ℕ, ◌+◌, ◌≡◌, refl, true, false, List, [], ◌∷◌, ◌++◌, Option, some, none, drop, arith,
}
use wl_resprox.Prelude.Map.{contains}
use wl_resprox.Wire.Words.{to_ne_bytes, read_u32, Bytes, little}
use wl_resprox.Wire.Header.{build_message, take_message}
use wl_resprox.Shadow.BiMap.{Pairing, pairing}
use wl_resprox.Shadow.Table.{host_id}
use wl_resprox.Relay.Session.{Session, client_to_host}
use wl_resprox.Relay.NewId.{create_object, translate, word_at}
use wl_resprox.Relay.Forward.{Outcome, dropped_no_sender, forward}
use wl_resprox.Relay.Process.{finish, relay_walked, relay_ready_messages}
use wl_resprox.Relay.Queue.{inputs}
use wl_resprox.Relay.Delivery.{Sent}
use wl_resprox.Relay.Descriptors.{relay_walked-Sent}
use wl_resprox.Relay.Drain.{relay_ready_messages-total}
use wl_resprox.Relay.Gapless.{forward-create_object}
use wl_resprox.Wire.Encode.{ArgumentType}
use wl_resprox.Relay.Addressing.{translate_objects-walk_signature}
use wl_resprox.Relay.Orphans.{finish-frame_orphan}
use wl_resprox.Tests.Fixtures.{
  Face, callback, faces, world, table, stale, session, frame_msg, frame_in, pool_msg, pool_in,
}

-- Two requests, and the start of a third.
abbrev ready : Session Pairing Face
ready = session table (frame_msg ++ pool_msg ++ 5 ∷ 0 ∷ []) (11 ∷ 12 ∷ [])

relay_ready_messages-total_example :
    (outcomes : List Outcome) × (final : Session Pairing Face) × (k : ℕ) × (relay_ready_messages
        world 31 client_to_host ready
      ≡ some (outcomes, final))
    × (take_message little final.src.read_buf ≡ none)
    × (final.src.read_buf ≡ drop k ready.src.read_buf)
unfolding wl_resprox.Wire.Header.build_message
relay_ready_messages-total_example =
    relay_ready_messages-total world 31 client_to_host ready (omega arith)

relay_walked-Sent_example :
    Sent 1
      (inputs ready)
      (relay_walked world pool_in pool_msg ready).0
      (inputs (relay_walked world pool_in pool_msg ready).1)
relay_walked-Sent_example = relay_walked-Sent world pool_in pool_msg ready

abbrev cut_off : Session Pairing Face
cut_off = session stale [] []

forward-create_object_example :
    let (_, created, t) = create_object world frame_in frame_msg 0 callback cut_off in
    let dropped = (forward world frame_in frame_msg created t).1.objects in
    (dropped.next_host_id ≡ 2) × (host_id faces pairing dropped 9 ≡ none)
unfolding wl_resprox.Shadow.Table.bump_generation wl_resprox.Relay.NewId.word_at
    wl_resprox.Wire.Words.read_u32 wl_resprox.Wire.Header.build_message
    wl_resprox.Relay.Forward.other_side_sender wl_resprox.Prelude.Map.get create_object
    wl_resprox.Shadow.Table.new
forward-create_object_example =
    forward-create_object world frame_in frame_msg frame_msg 0 callback cut_off refl (omega arith)
      (omega arith) (omega arith) refl

finish-frame_orphan_example :
    let (outcome, t) = finish world frame_in frame_msg (some 9) cut_off in
    (outcome ≡ dropped_no_sender) × (contains 9 t.pending_frames.awaiting_done ≡ true)
unfolding wl_resprox.Relay.Capture.is_request wl_resprox.Relay.Forward.other_side_sender
    wl_resprox.Prelude.Map.get wl_resprox.Shadow.Table.bump_generation wl_resprox.Prelude.Map.insert
    wl_resprox.Shadow.Table.new
finish-frame_orphan_example = finish-frame_orphan world frame_in frame_msg 9 cut_off refl refl

-- Two object arguments, the surface and the `wl_shm`.
abbrev two_objects : Bytes
two_objects = build_message little 5 0 (to_ne_bytes little 5 ++ to_ne_bytes little 6)

abbrev two_rewritten : Bytes
two_rewritten = build_message little 5 0 (to_ne_bytes little 2 ++ to_ne_bytes little 3)

translate_objects-walk_signature_example :
    (t : ℕ) × (translate world client_to_host table (word_at (read_u32 little two_objects 12))
      ≡ some t)
    × (read_u32 little two_rewritten 12 ≡ some (t % 2 ^ 32))
unfolding build_message to_ne_bytes wl_resprox.Wire.Walk.walk_signature
    wl_resprox.Relay.NewId.translate_objects wl_resprox.Prelude.Map.get
    wl_resprox.Shadow.Table.map_ids wl_resprox.Prelude.Map.insert wl_resprox.Shadow.Table.new
    pairing contains
translate_objects-walk_signature_example =
    translate_objects-walk_signature world client_to_host table
      (ArgumentType.object ∷ ArgumentType.object ∷ []) two_objects two_rewritten 8
      (record {
        new_id_offset = none;
        object_offsets = 0 ∷ 4 ∷ [];
        fd_count = 0;
        dynamic_interface_name = none;
      })
      4 (omega arith) refl refl refl
