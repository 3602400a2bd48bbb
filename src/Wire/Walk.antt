-- ===== src/Wire/Walk.antt =====
-- src/lib.rs: `walk_signature`, which finds the ids and counts the descriptors of a message without
-- decoding its arguments. `usize` has 64 bits.
use wl_resprox.Prelude.{
  ℕ, ◌+◌, ◌-◌, ◌^◌, List, [], ◌∷◌, ◌++◌, Option, none, some, if◌then◌else◌, ltb, length, take, drop,
}
use wl_resprox.Wire.Words.{Bytes, Endian, read_u32}
use wl_resprox.Wire.Text.{from_utf8, next_multiple_of_4}
use wl_resprox.Wire.Encode.{ArgumentType}

pub record SignatureWalk : Type 0 where
  pub new_id_offset : Option ℕ
  pub object_offsets : List ℕ
  pub fd_count : ℕ
  pub dynamic_interface_name : Option Bytes

pub data WalkError : Type 0 where
  offset_overflow payload_too_short : WalkError

pub data Walked : Type 0 where
  ok : ℕ → SignatureWalk → Walked
  err : WalkError → Walked

unfoldable pub checked_add : ℕ → ℕ → Option ℕ
checked_add a b = if ltb (a + b) (2 ^ 64) then some (a + b) else none

-- The end of a field of `size` bytes at `offset`, if the payload holds it.
unfoldable pub field_end : Bytes → ℕ → ℕ → (ℕ → Walked) → Walked
unfolding checked_add
field_end payload offset size k = elim (checked_add offset size) [
  | none ↦ err offset_overflow
  | some end ↦ if ltb (length payload) end then err payload_too_short else k end
]

-- The first string that is not null names the interface of a dynamic `new_id`.
unfoldable pub note_name : Bytes → ℕ → ℕ → Option Bytes → Option Bytes
unfolding from_utf8
note_name payload len_end len (some n) = some n
note_name payload len_end len none =
    if ltb 0 len then from_utf8 (take (len - 1) (drop len_end payload)) else none

-- A length prefix, then that many bytes and their padding.
unfoldable pub walk_sized : Endian → Bytes → ℕ → (ℕ → ℕ → SignatureWalk) → Walked
unfolding field_end read_u32 next_multiple_of_4
walk_sized e payload offset k = field_end payload offset 4 λ len_end.
    elim (read_u32 e payload offset) [
      | none ↦ err payload_too_short
      | some len ↦
          field_end payload len_end (next_multiple_of_4 len) λ data_end. ok data_end (k len_end len)
    ]

-- One argument: the `match arg_type` of the loop.
unfoldable pub walk_argument : Endian → Bytes → ArgumentType → ℕ → SignatureWalk → Walked
unfolding walk_sized note_name
walk_argument e payload ArgumentType.object offset w =
    field_end payload offset 4
      λ end. ok end (record w { object_offsets = w.object_offsets ++ offset ∷ [] })
walk_argument e payload ArgumentType.new_id offset w =
    field_end payload offset 4 λ end. ok end (record w { new_id_offset = some offset })
walk_argument e payload ArgumentType.str offset w = walk_sized e payload offset λ len_end len.
    record w { dynamic_interface_name = note_name payload len_end len w.dynamic_interface_name }
walk_argument e payload ArgumentType.array offset w = walk_sized e payload offset λ len_end len. w
walk_argument e payload ArgumentType.fd offset w =
    ok offset (record w { fd_count = w.fd_count + 1 })
walk_argument e payload _ offset w = field_end payload offset 4 λ end. ok end w

unfoldable pub walk_loop : Endian → Bytes → List ArgumentType → ℕ → SignatureWalk → Walked
unfolding walk_argument
walk_loop e payload [] offset w = ok offset w
walk_loop e payload (t ∷ ts) offset w = elim (walk_argument e payload t offset w) [
  | ok offset' w' ↦ walk_loop e payload ts offset' w'
  | err x ↦ err x
]

abbrev pub empty_walk : SignatureWalk
empty_walk = record {
  new_id_offset = none;
  object_offsets = [];
  fd_count = 0;
  dynamic_interface_name = none;
}

unfoldable pub walk_signature : Endian → Bytes → List ArgumentType → Walked
unfolding walk_loop
walk_signature e payload signature = walk_loop e payload signature 0 empty_walk
