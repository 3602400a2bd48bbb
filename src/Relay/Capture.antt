-- ===== src/Relay/Capture.antt =====
-- src/lib.rs: which requests are recorded for replay, and what is recorded.
use Prim.Native.String.{String}
use text.Mathlib.Text.{◌==◌ as str_eq}
use wl_resprox.Prelude.{
  ℕ, ◌+◌, ◌-◌, Bool, true, false, ◌&&◌, ◌||◌, List, [], ◌∷◌, Option, none, some, if◌then◌else◌,
  drop,
}
use wl_resprox.Prelude.Map.{Map, get, insert, remove}
use wl_resprox.Wire.Words.{Bytes, read_u32}
use wl_resprox.Wire.Header.{MessageHeader, header_len}
use wl_resprox.Wire.Walk.{SignatureWalk}
use wl_resprox.Protocol.{MessageDesc}
use wl_resprox.Recreation.Graph.{
  Recreatable, DmabufPlane, pointer, keyboard, touch, global, surface, xdg_surface, xdg_toplevel,
  shm_buffer, dmabuf_buffer, seat_device, viewport, fractional_scale,
}
use wl_resprox.Relay.Session.{World, Direction, client_to_host, host_to_client}

-- A message whose sender, interface, descriptor and signature are known. `objects` are the values
-- of its object arguments before translation.
pub record Incoming (I : Type 0) : Type 0 where
  pub direction : Direction
  pub guest_sender_id : ℕ
  pub interface : I
  pub desc : MessageDesc I
  pub header : MessageHeader
  pub walk : SignatureWalk
  pub objects : List ℕ

unfoldable pub is_client_to_host : Direction → Bool
is_client_to_host client_to_host = true
is_client_to_host host_to_client = false

abbrev pub first : List ℕ → Option ℕ
first [] = none
first (x ∷ xs) = some x

abbrev pub on_first {ℓ} : {A : Type ℓ} → (ℕ → A) → List ℕ → Option A
on_first f [] = none
on_first f (x ∷ xs) = some (f x)

infixl 5 ◌>>=◌
abbrev pub ◌>>=◌ {ℓ κ} : {A : Type ℓ} {B : Type κ} → Option A → (A → Option B) → Option B
none >>= f = none
some a >>= f = f a

module _ {B I : Type 0} (W : World B I) where
  -- `(interface.name, desc.name)` is this pair.
  unfoldable pub is_message : Incoming I → String → String → Bool
  is_message x iface method =
      str_eq (W.protocol.name x.interface) iface && str_eq x.desc.name method

  -- A request, or an event, of that name.
  unfoldable pub is_request : Incoming I → String → String → Bool
  unfolding is_message is_client_to_host
  is_request x iface method = is_client_to_host x.direction && is_message x iface method

  unfoldable pub is_event : Incoming I → String → String → Bool
  unfolding is_message is_client_to_host
  is_event x iface method =
      if is_client_to_host x.direction then false else is_message x iface method

  -- The globals that are bound again after a reconnect.
  unfoldable pub is_root : I → Bool
  is_root child =
      let n = W.protocol.name child in
      str_eq n "wl_compositor"
      || str_eq n "xdg_wm_base"
      || str_eq n "wl_shm"
      || str_eq n "zwp_linux_dmabuf_v1"
      || str_eq n "wl_seat"
      || str_eq n "wp_viewporter"
      || str_eq n "wp_fractional_scale_manager_v1"
      || str_eq n "xdg_activation_v1"

  -- The version that the client asked for stands right before the `new_id`, which is at `abs`.
  unfoldable pub requested_version : Bytes → ℕ → I → ℕ
  unfolding read_u32
  requested_version msg abs child = elim (read_u32 W.endian msg (abs - 4)) [
    | none ↦ W.protocol.version child
    | some v ↦ v
  ]

  -- `create_buffer`: five words behind the `new_id`.
  unfoldable pub capture_shm_buffer : ℕ → Bytes → ℕ → Option (Recreatable I)
  unfolding read_u32
  capture_shm_buffer pool payload offset = do
    buf_offset ← read_u32 W.endian payload (offset + 4)
    width ← read_u32 W.endian payload (offset + 8)
    height ← read_u32 W.endian payload (offset + 12)
    stride ← read_u32 W.endian payload (offset + 16)
    format ← read_u32 W.endian payload (offset + 20)
    some (shm_buffer pool buf_offset width height stride format)

  -- `create_immed`: four words, and the planes that were added to the parameters.
  unfoldable pub capture_dmabuf_buffer :
      Bytes → ℕ → Option (ℕ × List DmabufPlane) → Option (Recreatable I)
  unfolding read_u32
  capture_dmabuf_buffer payload offset pending = do
    width ← read_u32 W.endian payload (offset + 4)
    height ← read_u32 W.endian payload (offset + 8)
    format ← read_u32 W.endian payload (offset + 12)
    flags ← read_u32 W.endian payload (offset + 16)
    (dmabuf, planes) ← pending
    some (dmabuf_buffer dmabuf width height format flags planes)

  -- The recipe of a request that creates `guest_new_id`, of interface `child`, with the `new_id` at
  -- `offset` of the payload; and the planes that still wait for their buffer.
  unfoldable pub capture :
      Incoming I
      → Bytes
      → ℕ
      → ℕ
      → I
      → Map (ℕ × List DmabufPlane)
      → Option (Recreatable I) × Map (ℕ × List DmabufPlane)
  unfolding is_message is_root requested_version capture_shm_buffer capture_dmabuf_buffer get insert
      remove
  capture x msg offset guest_new_id child planes =
      let sender : ℕ = x.guest_sender_id in
      let payload = drop header_len msg in
      if is_message x "wl_registry" "bind" && is_root child
      then (some (global child (requested_version msg (header_len + offset) child)), planes)
      else if is_message x "wl_compositor" "create_surface"
      then (some (surface sender), planes)
      else if is_message x "xdg_wm_base" "get_xdg_surface"
      then (on_first (xdg_surface sender) x.objects, planes)
      else if is_message x "xdg_surface" "get_toplevel"
      then (some (xdg_toplevel sender none none), planes)
      else if is_message x "wl_shm_pool" "create_buffer"
      then (capture_shm_buffer sender payload offset, planes)
      else if is_message x "zwp_linux_dmabuf_v1" "create_params"
      then (none, insert guest_new_id (sender, []) planes)
      else if is_message x "zwp_linux_buffer_params_v1" "create_immed"
      then (capture_dmabuf_buffer payload offset (get sender planes), remove sender planes)
      else if is_message x "wl_seat" "get_pointer"
      then (some (seat_device sender pointer), planes)
      else if is_message x "wl_seat" "get_keyboard"
      then (some (seat_device sender keyboard), planes)
      else if is_message x "wl_seat" "get_touch"
      then (some (seat_device sender touch), planes)
      else if is_message x "wp_viewporter" "get_viewport"
      then (on_first (λ s. viewport sender s none) x.objects, planes)
      else if is_message x "wp_fractional_scale_manager_v1" "get_fractional_scale"
      then (on_first (fractional_scale sender) x.objects, planes)
      else (none, planes)
