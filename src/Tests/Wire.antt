-- ===== src/Tests/Wire.antt =====
-- src/wire.rs and the signature walk of src/lib.rs, at concrete inputs.
use wl_resprox.Prelude.{
  ◌≡◌, refl, true, false, List, [], ◌∷◌, ◌++◌, ◌⊎◌, some, none, length, take, drop, ◌≤◌, arith,
}
use wl_resprox.Wire.Words.{
  Bytes, to_ne_bytes, little, big, read_u32, write_u32_at, read_u32-write_u32_at,
}
use wl_resprox.Wire.Header.{
  build_message, take_message, parse, take_message-build_message, parse-build_message,
  take_message_prefix,
}
use wl_resprox.Wire.Text.{put_str, read_str, is_utf8}
use wl_resprox.Wire.Hex.{hex_encode, hex_decode, hex_decode-hex_encode}
use wl_resprox.Interfaces.{codes}
use wl_resprox.Wire.Text.RoundTrip.{read_str-put_str}
use wl_resprox.Wire.Encode.{ArgumentType, WaylandValue, EncodeError, encode_arguments, ok, err}
use wl_resprox.Wire.Encode.Typed.{well_typed, all_bytes, all_fds, encode_arguments_total}
use wl_resprox.Wire.Walk.{walk_signature, walk_loop, walk_argument, field_end, empty_walk}
use wl_resprox.Wire.Walk
use wl_resprox.Wire.WalkBounds.{Spaced, walk_signature-Spaced}
use wl_resprox.Wire.Describe.{describe}
use wl_resprox.Wire.WalkEncode.{walk_signature-all_bytes}

-- `bind` of "wl_shm", version 1, to the object 7.
abbrev bind_types : List ArgumentType
bind_types = ArgumentType.uint ∷ ArgumentType.str ∷ ArgumentType.uint ∷ ArgumentType.new_id ∷ []

abbrev bind_values : List WaylandValue
bind_values =
    WaylandValue.uint 3
    ∷ WaylandValue.string (119 ∷ 108 ∷ 95 ∷ 115 ∷ 104 ∷ 109 ∷ [])
    ∷ WaylandValue.uint 1
    ∷ WaylandValue.new_id 7
    ∷ []

encode_arguments_total_example :
    ((well_typed bind_types bind_values ≡ true)
      × (encode_arguments little bind_types bind_values
          ≡ ok (all_bytes little bind_values) (all_fds bind_values)))
    ⊎ ((well_typed bind_types bind_values ≡ false)
        × ((x : EncodeError) × (encode_arguments little bind_types bind_values ≡ err x)))
encode_arguments_total_example = encode_arguments_total little bind_types bind_values

walk_signature-all_bytes_example :
    walk_signature little (all_bytes little bind_values) bind_types
    ≡ Walk.ok 24 (describe 0 bind_values empty_walk)
unfolding well_typed wl_resprox.Wire.Text.is_utf8 all_bytes wl_resprox.Wire.Words.to_ne_bytes
    wl_resprox.Wire.Text.next_multiple_of_4
walk_signature-all_bytes_example =
    walk_signature-all_bytes little bind_types bind_values refl
      (tt, ((refl, omega arith), (tt, (tt, tt)))) (omega arith)

take_message-build_message_example :
    take_message big (build_message big 5 1 (1 ∷ 2 ∷ 3 ∷ 4 ∷ []) ++ 9 ∷ [])
    ≡ some (build_message big 5 1 (1 ∷ 2 ∷ 3 ∷ 4 ∷ []), 12)
take_message-build_message_example =
    take_message-build_message big 5 1 (1 ∷ 2 ∷ 3 ∷ 4 ∷ []) (9 ∷ []) (omega arith) (omega arith)
      (omega arith)

parse-build_message_example :
    parse little (build_message little 5 1 (1 ∷ 2 ∷ 3 ∷ 4 ∷ []) ++ [])
    ≡ some (record { sender_id = 5; opcode = 1; length = 12 })
parse-build_message_example =
    parse-build_message little 5 1 (1 ∷ 2 ∷ 3 ∷ 4 ∷ []) [] (omega arith) (omega arith) (omega arith)

-- Ten bytes, of which the first nine are one message.
abbrev ten : Bytes
ten = 1 ∷ 0 ∷ 0 ∷ 0 ∷ 0 ∷ 0 ∷ 9 ∷ 0 ∷ 77 ∷ 88 ∷ []

take_message_prefix_example :
    (take 9 ten ≡ take 9 ten) × (length (take 9 ten) ≡ 9) × (8 ≤ 9) × (9 ≤ length ten)
unfolding take_message
take_message_prefix_example = take_message_prefix little ten (take 9 ten) 9 refl

read_u32-write_u32_at_example : read_u32 little (write_u32_at little 8 77 (ten ++ ten)) 8 ≡ some 77
read_u32-write_u32_at_example =
    read_u32-write_u32_at little 8 77 (ten ++ ten) (omega arith) (omega arith)

-- Two object arguments behind a header.
abbrev two_objects : Bytes
two_objects = build_message little 5 0 (to_ne_bytes little 5 ++ to_ne_bytes little 6)

walk_signature-Spaced_example : Spaced 8 0 (0 ∷ 4 ∷ [])
unfolding walk_signature build_message to_ne_bytes walk_loop walk_argument field_end
walk_signature-Spaced_example =
    walk_signature-Spaced little (drop 8 two_objects)
      (ArgumentType.object ∷ ArgumentType.object ∷ []) 8
      (record {
        new_id_offset = none;
        object_offsets = 0 ∷ 4 ∷ [];
        fd_count = 0;
        dynamic_interface_name = none;
      })
      refl

read_str-put_str_example :
    read_str little (put_str little (9 ∷ 9 ∷ []) (119 ∷ 108 ∷ []) ++ 7 ∷ []) 2
    ≡ some (119 ∷ 108 ∷ [], length (put_str little (9 ∷ 9 ∷ []) (119 ∷ 108 ∷ [])))
unfolding is_utf8
read_str-put_str_example =
    read_str-put_str little (9 ∷ 9 ∷ []) (119 ∷ 108 ∷ []) (7 ∷ []) refl (omega arith)

hex_encode_test : hex_encode (0 ∷ 171 ∷ 255 ∷ []) ≡ codes "00abff"
unfolding hex_encode
hex_encode_test = refl

hex_decode-hex_encode_example :
    hex_decode (hex_encode (0 ∷ 171 ∷ 255 ∷ [])) ≡ some (0 ∷ 171 ∷ 255 ∷ [])
hex_decode-hex_encode_example =
    hex_decode-hex_encode (0 ∷ 171 ∷ 255 ∷ []) (omega arith, (omega arith, (omega arith, tt)))
