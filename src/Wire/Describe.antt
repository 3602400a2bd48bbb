-- ===== src/Wire/Describe.antt =====
-- src/lib.rs and src/wire.rs: what a list of values says of the message that holds them. `describe`
-- reads the values, and no bytes.
use wl_resprox.Prelude.{
  ℕ, ◌+◌, ◌^◌, ◌<◌, ◌≡◌, refl, true, List, [], ◌∷◌, ◌++◌, none, some, length, arith, length-append,
  length-replicate,
}
use wl_resprox.Wire.Words.{Endian, length-to_ne_bytes}
use wl_resprox.Wire.Text.{is_utf8, next_multiple_of_4}
use wl_resprox.Wire.Encode.{WaylandValue}
use wl_resprox.Wire.Encode.Typed.{bytes_of}
use wl_resprox.Wire.Walk.{SignatureWalk}

-- How many wire bytes a value takes.
unfoldable pub wire_size : WaylandValue → ℕ
wire_size (WaylandValue.fd v) = 0
wire_size (WaylandValue.string s) = 4 + next_multiple_of_4 (length s + 1)
wire_size (WaylandValue.array bytes) = 4 + next_multiple_of_4 (length bytes)
wire_size _ = 4

-- What a value at an offset adds to the description of a message.
unfoldable pub describe_value : ℕ → WaylandValue → SignatureWalk → SignatureWalk
describe_value offset (WaylandValue.object v) w = record w {
  object_offsets = w.object_offsets ++ offset ∷ [];
}
describe_value offset (WaylandValue.new_id v) w = record w { new_id_offset = some offset }
describe_value offset (WaylandValue.fd v) w = record w { fd_count = w.fd_count + 1 }
describe_value offset (WaylandValue.string s) w = record w {
  dynamic_interface_name = elim w.dynamic_interface_name [ none ↦ some s | some n ↦ some n ];
}
describe_value offset _ w = w

unfoldable pub describe : ℕ → List WaylandValue → SignatureWalk → SignatureWalk
unfolding describe_value wire_size
describe offset [] w = w
describe offset (v ∷ vs) w = describe (offset + wire_size v) vs (describe_value offset v w)

-- A string is UTF-8 and its length, NUL included, fits a word; an array's length does too. Rust's
-- types give the first, and sizes near 4 GB are out of reach of a message of 64 KB.
abbrev pub Fits : WaylandValue → Type 0
Fits (WaylandValue.string s) = (is_utf8 s ≡ true) × (length s + 1 < 2 ^ 32)
Fits (WaylandValue.array bytes) = length bytes < 2 ^ 32
Fits _ = Unit

module _ (e : Endian) where
  pub length-bytes_of : (v : WaylandValue) → Fits v → length (bytes_of e v) ≡ wire_size v
  unfolding bytes_of wire_size next_multiple_of_4
  length-bytes_of (WaylandValue.fd v) h = refl
  length-bytes_of (WaylandValue.int v) h = length-to_ne_bytes e v
  length-bytes_of (WaylandValue.uint v) h = length-to_ne_bytes e v
  length-bytes_of (WaylandValue.fixed v) h = length-to_ne_bytes e v
  length-bytes_of (WaylandValue.object v) h = length-to_ne_bytes e v
  length-bytes_of (WaylandValue.new_id v) h = length-to_ne_bytes e v
  length-bytes_of (WaylandValue.string s) h =
      grind (arith, length-append, length-to_ne_bytes, length-replicate)
  length-bytes_of (WaylandValue.array s) h =
      grind (arith, length-append, length-to_ne_bytes, length-replicate)
