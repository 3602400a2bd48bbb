-- ===== src/Recovery/Registry.antt =====
-- src/lib.rs: the new compositor's registry, up to the answer to `sync`.
use Prim.Native.String.{String}
use text.Mathlib.Text.{◌==◌ as str_eq}
use wl_resprox.Prelude.{
  ℕ, zero, suc, Bool, false, ◌&&◌, ◌||◌, ◌++◌, List, [], ◌∷◌, Option, none, some, if◌then◌else◌,
  ◌==◌, drop,
}
use wl_resprox.Wire.Words.{Bytes, read_u32}
use wl_resprox.Wire.Header.{MessageHeader, header_len}
use wl_resprox.Wire.Text.{read_str}
use wl_resprox.Interfaces.{codes, bytes_eq}
use wl_resprox.Relay.Session.{World}
use wl_resprox.Relay.Capture.{◌>>=◌}
use wl_resprox.Connection.Line.{Line, Next, message, failed, waits, next_message}

-- The globals that recovery looks out for, each with the name and version last advertised, the
-- latest first.
abbrev pub Globals : Type 0
Globals = List (String × ℕ × ℕ)

-- Those that a recipe may name.
unfoldable pub recreated_globals : List String
recreated_globals =
    "wl_compositor" ∷ "xdg_wm_base" ∷ "wl_shm" ∷ "zwp_linux_dmabuf_v1" ∷ "wl_seat" ∷ "wp_viewporter"
    ∷ "wp_fractional_scale_manager_v1" ∷ "xdg_activation_v1" ∷ []

unfoldable pub wanted_globals : List String
unfolding recreated_globals
wanted_globals = recreated_globals ++ "wl_data_device_manager" ∷ []

unfoldable pub is_listed : String → List String → Bool
is_listed name [] = false
is_listed name (listed ∷ rest) = str_eq listed name || is_listed name rest

-- The name in the list that these bytes spell.
unfoldable pub spelled : Bytes → List String → Option String
unfolding bytes_eq
spelled bytes [] = none
spelled bytes (name ∷ rest) = if bytes_eq bytes (codes name) then some name else spelled bytes rest

unfoldable pub global_of : String → Globals → Option (ℕ × ℕ)
global_of name [] = none
global_of name ((known, number, version) ∷ rest) =
    if str_eq known name then some (number, version) else global_of name rest

-- `unanswered`: nothing more arrives, so the loop waits forever.
pub data Collected : Type 0 where
  synced : Globals → Collected
  lost unanswered out_of_fuel : Collected

-- The global that a recipe's interface is bound to.
unfoldable pub found_global : String → Globals → Option (ℕ × ℕ)
unfolding is_listed recreated_globals global_of
found_global name globals =
    if is_listed name recreated_globals then global_of name globals else none

module _ {B I : Type 0} (W : World B I) where
  -- `wl_registry.global`: the name, the interface and the version, of a wanted global.
  unfoldable pub advertised : Bytes → Option (String × ℕ × ℕ)
  unfolding read_u32 read_str spelled wanted_globals
  advertised payload = do
    name ← read_u32 W.endian payload 0
    (iface_name, next) ← read_str W.endian payload 4
    version ← read_u32 W.endian payload next
    wanted ← spelled iface_name wanted_globals
    some (wanted, name, version)

  unfoldable pub note_global : Bytes → Globals → Globals
  unfolding advertised
  note_global payload globals = elim (advertised payload) [
    | none ↦ globals
    | some found ↦ found ∷ globals
  ]

  unfoldable pub is_event_0 : ℕ → MessageHeader → Bool
  is_event_0 sender header = header.sender_id == sender && header.opcode == 0

  -- What one message adds to the globals; none if it answers the `sync`.
  unfoldable pub heard : ℕ → ℕ → MessageHeader → Bytes → Globals → Option Globals
  unfolding is_event_0 note_global
  heard registry sync header msg globals =
      if is_event_0 registry header
      then some (note_global (drop header_len msg) globals)
      else if is_event_0 sync header
      then none
      else some globals

  -- The body of the loop, given what `next_message` gave and how the loop goes on. A quiet time ends
  -- no wait here.
  unfoldable pub collect_after :
      (Globals → Line → Collected × Line) → ℕ → ℕ → Globals → Next × Line → Collected × Line
  unfolding heard
  collect_after go_on registry sync globals (failed, line) = (lost, line)
  collect_after go_on registry sync globals (waits, line) = elim line.arrivals [
    | [] ↦ (unanswered, line)
    | a ∷ rest ↦ go_on globals line
  ]
  collect_after go_on registry sync globals (message header msg, line) =
      elim (heard registry sync header msg globals) [
        | none ↦ (synced globals, line)
        | some noted ↦ go_on noted line
      ]

  -- The loop, on fuel.
  unfoldable pub collect_globals : ℕ → ℕ → ℕ → Globals → Line → Collected × Line
  unfolding next_message collect_after
  collect_globals zero registry sync globals line = (out_of_fuel, line)
  collect_globals (suc fuel) registry sync globals line =
      collect_after (collect_globals fuel registry sync) registry sync globals
        (next_message W.endian line)
