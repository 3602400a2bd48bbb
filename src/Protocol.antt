-- ===== src/Protocol.antt =====
-- What the program uses of the protocol library's static descriptions: the fields of an `Interface`
-- and of a `MessageDesc`. The descriptions themselves are generated code, a parameter of the model.
use Prim.Native.String.{String}
use wl_resprox.Prelude.{ℕ, suc, Bool, List, [], ◌∷◌, Option, none, some, if◌then◌else◌}
use text.Mathlib.Text.{◌==◌ as str_eq}
use wl_resprox.Wire.Encode.{ArgumentType}

pub record MessageDesc (I : Type 0) : Type 0 where
  pub name : String
  pub signature : List ArgumentType
  pub is_destructor : Bool
  pub child_interface : Option I

-- `I` is the type of `&'static Interface`. `static_interface` gives the static of an interface's
-- name, such as WL_DISPLAY_INTERFACE for "wl_display".
pub record Protocol (I : Type 0) : Type 0 where
  pub name : I → String
  pub version : I → ℕ
  pub requests : I → List (MessageDesc I)
  pub events : I → List (MessageDesc I)
  pub static_interface : String → I

module _ {I : Type 0} (P : Protocol I) where
  -- `.iter().position(|d| d.name == name)`.
  unfoldable pub position : ℕ → String → List (MessageDesc I) → Option ℕ
  position i name [] = none
  position i name (d ∷ ds) = if str_eq d.name name then some i else position (suc i) name ds

  unfoldable pub request_opcode : I → String → Option ℕ
  unfolding position
  request_opcode interface name = position 0 name (P.requests interface)

  unfoldable pub event_opcode : I → String → Option ℕ
  unfolding position
  event_opcode interface name = position 0 name (P.events interface)
