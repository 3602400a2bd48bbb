-- ===== src/Recovery/Toplevel.antt =====
-- src/lib.rs: the recipe of an xdg_toplevel, in `recover_state_after_reconnect`, up to the client's
-- answer to the new compositor's `configure`.
use Prim.Native.String.{String}
use wl_resprox.Prelude.{
  ℕ, zero, suc, Bool, false, ◌&&◌, [], ◌∷◌, Option, none, some, if◌then◌else◌, ◌==◌, drop,
}
use wl_resprox.Wire.Words.{Bytes}
use wl_resprox.Wire.Header.{MessageHeader, header_len, build_message}
use wl_resprox.Wire.Encode.{WaylandValue}
use wl_resprox.Protocol.{request_opcode, event_opcode}
use wl_resprox.Shadow.BiMap.{is_some_of}
use wl_resprox.Shadow.Table.{ShadowTable, host_id, interface}
use wl_resprox.Recreation.Graph.{RecreationGraph, xdg_surface, recipe_for}
use wl_resprox.Relay.Session.{World}
use wl_resprox.Relay.Capture.{◌>>=◌}
use wl_resprox.Connection.Line.{Line, Next, message, next_message, send}
use wl_resprox.Connection.Room.{room}
use wl_resprox.Recovery.State.{Recovery, Step, created}
use wl_resprox.Recovery.Recreate.{new_values, recreate, follow_up}

-- How a wait ends: with the message that it is for; by an error or the deadline; or for want of fuel.
pub data Waited : Type 0 where
  satisfied gave_up out_of_fuel : Waited

-- The two objects whose `configure` events are waited for, by host and guest id, with the opcodes.
pub record Awaited : Type 0 where
  pub toplevel_host : ℕ
  pub toplevel_guest : ℕ
  pub toplevel_configure : Option ℕ
  pub parent_host : ℕ
  pub parent_guest : ℕ
  pub parent_configure : Option ℕ

unfoldable pub is_from : ℕ → Option ℕ → MessageHeader → Bool
is_from sender opcode header = header.sender_id == sender && is_some_of header.opcode opcode

module _ {B I : Type 0} (W : World B I) where
  unfoldable pub replay_text : String → Option Bytes → ℕ → I → Recovery B I → Recovery B I
  unfolding follow_up
  replay_text name none host child s = s
  replay_text name (some text) host child s =
      follow_up W host child name (WaylandValue.string text ∷ []) s

  -- The surface's host id and the opcode of `commit`.
  unfoldable pub commit_target : RecreationGraph I → ℕ → ShadowTable B I → Option (ℕ × ℕ)
  unfolding recipe_for host_id interface request_opcode
  commit_target graph parent objects = elim (recipe_for graph parent) [
    | some (xdg_surface p surface) ↦ do
      surface_host ← host_id W.protocol W.ids objects surface
      surface_interface ← interface W.protocol W.ids objects surface
      opcode ← request_opcode W.protocol surface_interface "commit"
      some (surface_host, opcode)
    | _ ↦ none
  ]

  unfoldable pub force_commit : RecreationGraph I → ℕ → Recovery B I → Bool × Recovery B I
  unfolding commit_target send build_message
  force_commit graph parent s = elim (commit_target graph parent s.objects) [
    | none ↦ (false, s)
    | some (surface_host, opcode) ↦
        let (ok, host') = send s.host (build_message W.endian surface_host opcode []) [] in
        (ok, record s { host = host' })
  ]

  -- A message on, as it is but for its sender.
  unfoldable pub pass_on : Line → ℕ → MessageHeader → Bytes → Bool × Line
  unfolding send build_message
  pass_on to sender header msg =
      send to (build_message W.endian sender header.opcode (drop header_len msg)) []

  -- After a message went on: the wait goes on, or it ends.
  unfoldable pub if_passed : Bool × Recovery B I → Waited × Recovery B I → Waited × Recovery B I
  if_passed (ok, s) next = if ok then next else (gave_up, s)

  -- A message from the compositor, at a state from which the wait goes on as `go_on` says. Messages
  -- other than the two events are dropped.
  unfoldable pub on_configure :
      (Recovery B I → Waited × Recovery B I)
      → Awaited
      → MessageHeader
      → Bytes
      → Recovery B I
      → Waited × Recovery B I
  unfolding is_from pass_on if_passed
  on_configure go_on a header msg s =
      let (ok, gtk1) = pass_on s.gtk a.toplevel_guest header msg in
      let (ok', gtk2) = pass_on s.gtk a.parent_guest header msg in
      let told : Recovery B I = record s { gtk = gtk1 } in
      let told' : Recovery B I = record s { gtk = gtk2 } in
      if is_from a.toplevel_host a.toplevel_configure header
      then if_passed (ok, told) (go_on told)
      else if is_from a.parent_host a.parent_configure header
      then if_passed (ok', told') (satisfied, told')
      else go_on s

  unfoldable pub configure_after :
      (Recovery B I → Waited × Recovery B I)
      → Awaited
      → Recovery B I
      → Next × Line
      → Waited × Recovery B I
  unfolding on_configure
  configure_after go_on a s (message header msg, host) =
      on_configure go_on a header msg (record s { host = host })
  configure_after go_on a s (none_came, host) = (gave_up, record s { host = host })

  -- The wait for the compositor's events, on fuel.
  unfoldable pub await_configure : ℕ → Awaited → Recovery B I → Waited × Recovery B I
  unfolding next_message configure_after
  await_configure zero a s = (out_of_fuel, s)
  await_configure (suc fuel) a s =
      configure_after (await_configure fuel a) a s (next_message W.endian s.host)

  -- A message from the client: `ack_configure` ends the wait, any other is dropped.
  unfoldable pub ack_after :
      (Recovery B I → Waited × Recovery B I)
      → Awaited
      → Option ℕ
      → Recovery B I
      → Next × Line
      → Waited × Recovery B I
  unfolding is_from pass_on if_passed
  ack_after go_on a opcode s (message header msg, gtk) =
      let (ok, host') = pass_on s.host a.parent_host header msg in
      let told : Recovery B I = record s { gtk = gtk; host = host' } in
      if is_from a.parent_guest opcode header
      then if_passed (ok, told) (satisfied, told)
      else go_on (record s { gtk = gtk })
  ack_after go_on a opcode s (none_came, gtk) = (gave_up, record s { gtk = gtk })

  -- The wait for the client's `ack_configure`, on fuel.
  unfoldable pub await_ack : ℕ → Awaited → Option ℕ → Recovery B I → Waited × Recovery B I
  unfolding next_message ack_after
  await_ack zero a opcode s = (out_of_fuel, s)
  await_ack (suc fuel) a opcode s =
      ack_after (await_ack fuel a opcode) a opcode s (next_message W.endian s.gtk)

  -- The client's answer is waited for if the compositor's events came.
  unfoldable pub acknowledge : Awaited → Option ℕ → Waited × Recovery B I → Waited × Recovery B I
  unfolding await_ack room
  acknowledge a opcode (satisfied, s) = await_ack (suc (room s.gtk)) a opcode s
  acknowledge a opcode (result, s) = (result, s)

  -- Both waits, one after the other.
  unfoldable pub handshake : Awaited → Option ℕ → Recovery B I → Waited × Recovery B I
  unfolding await_configure acknowledge room
  handshake a opcode s = acknowledge a opcode (await_configure (suc (room s.host)) a s)

  -- The parent's host id and interface, from before the toplevel is made.
  unfoldable pub awaited : ℕ → ℕ → ℕ → I → ShadowTable B I → Option (Awaited × Option ℕ)
  unfolding host_id interface request_opcode event_opcode
  awaited guest parent host child objects = do
    parent_interface ← interface W.protocol W.ids objects parent
    parent_host ← host_id W.protocol W.ids objects parent
    some (
      record {
        toplevel_host = host;
        toplevel_guest = guest;
        toplevel_configure = event_opcode W.protocol child "configure";
        parent_host = parent_host;
        parent_guest = parent;
        parent_configure = event_opcode W.protocol parent_interface "configure";
      },
      request_opcode W.protocol parent_interface "ack_configure",
    )

  -- The commit, and the handshake that it brings about; how it ends is only logged.
  unfoldable pub configure :
      RecreationGraph I → ℕ → Option (Awaited × Option ℕ) → Recovery B I → Recovery B I
  unfolding force_commit handshake
  configure graph parent none s = s
  configure graph parent (some (a, ack_opcode)) s =
      let (committed, s') = force_commit graph parent s in
      if committed then (handshake a ack_opcode s').1 else s'

  -- The title and the application id, and then the handshake. `before` is the table from before the
  -- recipe.
  unfoldable pub present :
      RecreationGraph I
      → ShadowTable B I
      → ℕ
      → ℕ
      → Option Bytes
      → Option Bytes
      → ℕ
      → I
      → Recovery B I
      → Recovery B I
  unfolding replay_text awaited configure
  present graph before guest parent title app_id host child s =
      let titled = replay_text "set_title" title host child s in
      let named = replay_text "set_app_id" app_id host child titled in
      configure graph parent (awaited guest parent host child before) named

  -- After a request that may have made the toplevel.
  unfoldable pub introduce :
      RecreationGraph I
      → ShadowTable B I
      → ℕ
      → ℕ
      → Option Bytes
      → Option Bytes
      → Step B I
      → Step B I
  unfolding present
  introduce graph before guest parent title app_id (created host child s) =
      created host child (present graph before guest parent title app_id host child s)
  introduce graph before guest parent title app_id step = step

  unfoldable pub recreate_xdg_toplevel :
      RecreationGraph I → ℕ → ℕ → Option Bytes → Option Bytes → Recovery B I → Step B I
  unfolding recreate introduce
  recreate_xdg_toplevel graph guest parent title app_id s =
      introduce graph s.objects guest parent title app_id
        (recreate W guest parent none "get_toplevel" new_values s)
