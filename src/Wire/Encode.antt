-- ===== src/Wire/Encode.antt =====
-- src/wire.rs: `WaylandValue` and the encoder that checks a signature. `ArgumentType` is the enum of
-- the protocol library, by the constructors that the source matches; the null flag of `Str` and
-- `Object` and the interface lists are never read.
pub mod Typed
use wl_resprox.Prelude.{
  ℕ, ◌+◌, ◌≡◌, refl, List, [], ◌∷◌, ◌++◌, if◌then◌else◌, ◌==◌, length, arith, suc,
}
use wl_resprox.Wire.Words.{Bytes, Endian, put_u32}
use wl_resprox.Wire.Text.{put_str, put_array}

pub data ArgumentType : Type 0 where
  int uint fixed str object new_id array fd : ArgumentType

-- A descriptor is a number that names the open file.
pub data WaylandValue : Type 0 where
  int uint fixed object new_id fd : ℕ → WaylandValue
  string array : Bytes → WaylandValue

pub data EncodeError : Type 0 where
  count_mismatch : ℕ → ℕ → EncodeError
  type_mismatch : ℕ → EncodeError

pub data Encoded : Type 0 where
  ok : Bytes → List ℕ → Encoded
  err : EncodeError → Encoded

-- The `match` on a declared type and a value, at argument `i`, over the payload and descriptors so
-- far.
unfoldable pub encode_argument : Endian → ℕ → ArgumentType → WaylandValue → Bytes → List ℕ → Encoded
encode_argument e i ArgumentType.int (WaylandValue.int v) payload fds = ok (put_u32 e payload v) fds
encode_argument e i ArgumentType.uint (WaylandValue.uint v) payload fds =
    ok (put_u32 e payload v) fds
encode_argument e i ArgumentType.fixed (WaylandValue.fixed v) payload fds =
    ok (put_u32 e payload v) fds
encode_argument e i ArgumentType.str (WaylandValue.string s) payload fds =
    ok (put_str e payload s) fds
encode_argument e i ArgumentType.object (WaylandValue.object v) payload fds =
    ok (put_u32 e payload v) fds
encode_argument e i ArgumentType.new_id (WaylandValue.new_id v) payload fds =
    ok (put_u32 e payload v) fds
encode_argument e i ArgumentType.array (WaylandValue.array bytes) payload fds =
    ok (put_array e payload bytes) fds
encode_argument e i ArgumentType.fd (WaylandValue.fd v) payload fds = ok payload (fds ++ v ∷ [])
encode_argument e i expected got payload fds = err (type_mismatch i)

-- The loop over `signature.iter().zip(values).enumerate()`.
unfoldable pub encode_loop :
    Endian → ℕ → List ArgumentType → List WaylandValue → Bytes → List ℕ → Encoded
unfolding encode_argument
encode_loop e i (t ∷ ts) (v ∷ vs) payload fds = elim (encode_argument e i t v payload fds) [
  | ok payload' fds' ↦ encode_loop e (suc i) ts vs payload' fds'
  | err x ↦ err x
]
encode_loop e i _ _ payload fds = ok payload fds

unfoldable pub encode_arguments : Endian → List ArgumentType → List WaylandValue → Encoded
unfolding encode_loop
encode_arguments e signature values =
    if length values == length signature
    then encode_loop e 0 signature values [] []
    else err (count_mismatch (length signature) (length values))
