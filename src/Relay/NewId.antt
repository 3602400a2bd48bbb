-- ===== src/Relay/NewId.antt =====
-- src/lib.rs: the object arguments of a message, and the object that it creates.
use wl_resprox.Prelude.{ℕ, ◌+◌, List, [], ◌∷◌, Option, none, some, if◌then◌else◌}
use wl_resprox.Prelude.Map.{Map}
use wl_resprox.Wire.Words.{Bytes, read_u32, write_u32_at}
use wl_resprox.Wire.Header.{header_len}
use wl_resprox.Interfaces.{resolve_child_interface}
use wl_resprox.Shadow.Table.{
  ShadowTable, host_id, guest_id, map_ids, allocate_host_id, allocate_guest_server_id,
  remember_unresolvable_interface,
}
use wl_resprox.Recreation.Graph.{Recreatable, DmabufPlane, record_recipe}
use wl_resprox.Relay.Session.{World, Session, Direction, client_to_host, host_to_client}
use wl_resprox.Relay.Capture.{Incoming, is_client_to_host, capture}

-- A read at an offset that the walk found, where the source cannot fail.
unfoldable pub word_at : Option ℕ → ℕ
word_at none = 0
word_at (some v) = v

module _ {B I : Type 0} (W : World B I) where
  -- An id in the space of the sending side, for the receiving side.
  unfoldable pub translate : Direction → ShadowTable B I → ℕ → Option ℕ
  unfolding host_id guest_id
  translate client_to_host objects id = host_id W.protocol W.ids objects id
  translate host_to_client objects id = guest_id W.protocol W.ids objects id

  unfoldable pub original_object_values : Bytes → List ℕ → List ℕ
  unfolding read_u32 word_at
  original_object_values msg [] = []
  original_object_values msg (offset ∷ rest) =
      word_at (read_u32 W.endian msg (header_len + offset)) ∷ original_object_values msg rest

  -- Every object argument rewritten in place; none if one of them has no translation.
  unfoldable pub translate_objects : Direction → ShadowTable B I → List ℕ → Bytes → Option Bytes
  unfolding read_u32 write_u32_at word_at translate
  translate_objects dir objects [] msg = some msg
  translate_objects dir objects (offset ∷ rest) msg =
      let abs : ℕ = header_len + offset in
      elim (translate dir objects (word_at (read_u32 W.endian msg abs))) [
        | none ↦ none
        | some t ↦ translate_objects dir objects rest (write_u32_at W.endian abs t msg)
      ]

  -- Each side has its own ids: the guest's id, the host's, and the table.
  unfoldable pub allocate_pair : Direction → ℕ → ShadowTable B I → ℕ × ℕ × ShadowTable B I
  unfolding allocate_host_id allocate_guest_server_id
  allocate_pair client_to_host original objects =
      let (host, objects') = allocate_host_id W.protocol W.ids objects in (original, host, objects')
  allocate_pair host_to_client original objects =
      let (guest, objects') = allocate_guest_server_id W.protocol W.ids objects in
      (guest, original, objects')

  -- A recipe is recorded for requests only.
  unfoldable pub record_captured :
      Direction
      → ℕ
      → Option (Recreatable I) × Map (ℕ × List DmabufPlane)
      → Session B I
      → Session B I
  unfolding record_recipe
  record_captured client_to_host guest_new_id (none, planes) s = record s {
    pending_dmabuf_planes = planes;
  }
  record_captured client_to_host guest_new_id (some recipe, planes) s = record s {
    pending_dmabuf_planes = planes;
    graph = record_recipe s.graph guest_new_id recipe;
  }
  record_captured host_to_client guest_new_id captured s = s

  unfoldable pub record_capture : Incoming I → Bytes → ℕ → ℕ → I → Session B I → Session B I
  unfolding capture record_captured
  record_capture x msg offset guest_new_id child s =
      record_captured x.direction guest_new_id
        (capture W x msg offset guest_new_id child s.pending_dmabuf_planes) s

  -- The object that the message creates, of interface `child`: mapped, recorded, and its id
  -- rewritten. The result is the message, the guest id of the object, and the session.
  unfoldable pub create_object :
      Incoming I → Bytes → ℕ → I → Session B I → Bytes × Option ℕ × Session B I
  unfolding read_u32 write_u32_at word_at allocate_pair map_ids record_capture is_client_to_host
  create_object x msg offset child s =
      let abs : ℕ = header_len + offset in
      let original : ℕ = word_at (read_u32 W.endian msg abs) in
      let (guest, host, objects) = allocate_pair x.direction original s.objects in
      let mapped : Session B I = record s {
        objects = map_ids W.protocol W.ids objects guest host child;
      } in
      let recorded = record_capture x msg offset guest child mapped in
      let rewritten : ℕ = if is_client_to_host x.direction then host else guest in
      (write_u32_at W.endian abs rewritten msg, some guest, recorded)

  -- The name of an interface that has no table is remembered for the log.
  unfoldable pub remember_name : Incoming I → ℕ → Session B I → Session B I
  unfolding remember_unresolvable_interface is_client_to_host
  remember_name x original s =
      if is_client_to_host x.direction
      then (elim x.walk.dynamic_interface_name [
        | none ↦ s
        | some name ↦ record s {
          objects = remember_unresolvable_interface W.protocol W.ids s.objects original name;
        }
      ])
      else s

  -- `none` for a message whose new object has no known interface; it is dropped.
  unfoldable pub handle_new_id :
      Incoming I → Bytes → Session B I → Option (Bytes × Option ℕ) × Session B I
  unfolding read_u32 word_at resolve_child_interface create_object remember_name
  handle_new_id x msg s = elim x.walk.new_id_offset [
    | none ↦ (some (msg, none), s)
    | some offset ↦ elim (resolve_child_interface W.protocol x.desc x.walk.dynamic_interface_name) [
      | some child ↦
          let (msg', guest, s') = create_object x msg offset child s in (some (msg', guest), s')
      | none ↦ (none, remember_name x (word_at (read_u32 W.endian msg (header_len + offset))) s)
    ]
  ]
