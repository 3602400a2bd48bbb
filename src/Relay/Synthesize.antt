-- ===== src/Relay/Synthesize.antt =====
-- src/lib.rs: the events that the proxy makes up for the client.
use wl_resprox.Prelude.{ℕ, ◌+◌, ◌%◌, ◌^◌, List, [], ◌∷◌, Option, none, some}
use wl_resprox.Prelude.Map.{Map}
use wl_resprox.Wire.Words.{Bytes, put_u32}
use wl_resprox.Wire.Header.{build_message}
use wl_resprox.Protocol.{event_opcode}
use wl_resprox.Shadow.Table.{ShadowTable, interface}
use wl_resprox.Trackers.Grabs.{
  GrabTracker, PointerState, active_pointer_grabs, active_keyboard_grabs, clear,
}
use wl_resprox.Relay.Session.{World, Conn, write_message}

module _ {B I : Type 0} (W : World B I) where
  -- One event with a payload of words; a failed write is only logged.
  unfoldable pub send_event : Conn → ℕ → ℕ → Bytes → Conn
  unfolding write_message build_message
  send_event dst sender opcode payload =
      (write_message dst (build_message W.endian sender opcode payload) []).1

  unfoldable pub delete_id_opcode : ShadowTable B I → Option ℕ
  unfolding interface event_opcode
  delete_id_opcode objects = elim (interface W.protocol W.ids objects 1) [
    | none ↦ none
    | some wl_display ↦ event_opcode W.protocol wl_display "delete_id"
  ]

  -- `wl_display.delete_id` for a guest id, if the display's events name it.
  unfoldable pub send_delete_id : Conn → ShadowTable B I → ℕ → Conn
  unfolding delete_id_opcode send_event put_u32
  send_delete_id dst objects guest_id = elim (delete_id_opcode objects) [
    | none ↦ dst
    | some opcode ↦ send_event dst 1 opcode (put_u32 W.endian [] guest_id)
  ]

  unfoldable pub synthesize_frame_done : Conn → ShadowTable B I → ℕ → Conn
  unfolding interface event_opcode send_event send_delete_id put_u32
  synthesize_frame_done dst objects callback = elim (interface W.protocol W.ids objects callback) [
    | none ↦ dst
    | some callback_iface ↦
        let answered : Conn = elim (event_opcode W.protocol callback_iface "done") [
          | none ↦ dst
          | some opcode ↦ send_event dst callback opcode (put_u32 W.endian [] 0)
        ] in
        send_delete_id answered objects callback
  ]

  -- `serial += 1` on a `u32`.
  unfoldable pub next_serial : ℕ → ℕ
  next_serial serial = (serial + 1) % 2 ^ 32

  unfoldable pub release_buttons : ℕ → ℕ → List ℕ → ℕ × Conn → ℕ × Conn
  unfolding next_serial send_event put_u32
  release_buttons pointer opcode [] (serial, gtk) = (serial, gtk)
  release_buttons pointer opcode (button ∷ rest) (serial, gtk) =
      let e = W.endian in
      let payload = put_u32 e (put_u32 e (put_u32 e (put_u32 e [] serial) 0) button) 0 in
      release_buttons pointer opcode rest
        (next_serial serial, send_event gtk pointer opcode payload)

  -- `leave` for an entered surface.
  unfoldable pub release_focus : I → ℕ → Option ℕ → ℕ × Conn → ℕ × Conn
  unfolding event_opcode next_serial send_event put_u32
  release_focus iface device none (serial, gtk) = (serial, gtk)
  release_focus iface device (some surface) (serial, gtk) =
      elim (event_opcode W.protocol iface "leave") [
        | none ↦ (serial, gtk)
        | some opcode ↦
            let payload = put_u32 W.endian (put_u32 W.endian [] serial) surface in
            (next_serial serial, send_event gtk device opcode payload)
      ]

  unfoldable pub release_pointers : ShadowTable B I → Map PointerState → ℕ × Conn → ℕ × Conn
  unfolding interface event_opcode release_focus release_buttons
  release_pointers objects [] out = out
  release_pointers objects ((pointer, s) ∷ rest) out =
      let out' : ℕ × Conn = elim (interface W.protocol W.ids objects pointer) [
        | none ↦ out
        | some iface ↦
            let left = release_focus iface pointer s.entered_surface out in
            elim (event_opcode W.protocol iface "button") [
              | none ↦ left
              | some opcode ↦ release_buttons pointer opcode s.pressed_buttons left
            ]
      ] in
      release_pointers objects rest out'

  unfoldable pub release_keyboards : ShadowTable B I → Map ℕ → ℕ × Conn → ℕ × Conn
  unfolding interface release_focus
  release_keyboards objects [] out = out
  release_keyboards objects ((keyboard, surface) ∷ rest) out =
      let out' : ℕ × Conn = elim (interface W.protocol W.ids objects keyboard) [
        | none ↦ out
        | some iface ↦ release_focus iface keyboard (some surface) out
      ] in
      release_keyboards objects rest out'

  unfoldable pub synthesize_grab_releases :
      Conn → ShadowTable B I → GrabTracker → Conn × GrabTracker
  unfolding active_pointer_grabs active_keyboard_grabs release_pointers release_keyboards clear
  synthesize_grab_releases gtk objects grabs =
      let after_pointers = release_pointers objects (active_pointer_grabs grabs) (1, gtk) in
      let (serial, gtk') = release_keyboards objects (active_keyboard_grabs grabs) after_pointers in
      (gtk', clear grabs)
