-- ===== src/Wire/Header.antt =====
-- src/wire.rs: the message header, and splitting one message off the front of a buffer.
use wl_resprox.Prelude.{
  ℕ, ◌+◌, ◌*◌, ◌/◌, ◌%◌, ◌^◌, ◌≤◌, ◌<◌, ◌≡◌, ◌||◌, [], ◌∷◌, ◌++◌, Option, none, some, arith, length,
  take, length-append, ltb, if◌then◌else◌, take-append_self, length-take_of_le,
}
use wl_resprox.Wire.Words.{
  Bytes, Endian, little, big, from_ne_bytes, to_ne_bytes, first_u32, put_u32, length-to_ne_bytes,
}

abbrev pub header_len : ℕ
header_len = 8

pub record MessageHeader : Type 0 where
  pub sender_id : ℕ
  pub opcode : ℕ
  pub length : ℕ

-- `MessageHeader::parse`: the low half of the second word is the opcode, the high half the length.
unfoldable pub parse : Endian → Bytes → Option MessageHeader
unfolding from_ne_bytes
parse e (a ∷ b ∷ c ∷ d ∷ a' ∷ b' ∷ c' ∷ d' ∷ rest) =
    let word2 : ℕ = from_ne_bytes e a' b' c' d' in
    some (record {
      sender_id = from_ne_bytes e a b c d;
      opcode = word2 % 65536;
      length = word2 / 65536 % 65536;
    })
parse e _ = none

unfoldable pub message_len : MessageHeader → ℕ
message_len h = h.length

unfoldable pub read_sender_id : Endian → Bytes → Option ℕ
unfolding first_u32
read_sender_id e msg = first_u32 e msg

-- `Err` on a message too short for a sender id.
unfoldable pub write_sender_id : Endian → Bytes → ℕ → Option Bytes
unfolding to_ne_bytes
write_sender_id e (a ∷ b ∷ c ∷ d ∷ rest) new_id = some (to_ne_bytes e new_id ++ rest)
write_sender_id e _ new_id = none

-- One complete message off the front: its bytes and its length.
unfoldable pub take_message : Endian → Bytes → Option (Bytes × ℕ)
unfolding parse message_len
take_message e buf = elim (parse e buf) [
  | none ↦ none
  | some header ↦
      let len = message_len header in
      if ltb len header_len || ltb (length buf) len then none else some (take len buf, len)
]

-- `(HEADER_LEN + payload.len()) as u16` wraps.
unfoldable pub build_message : Endian → ℕ → ℕ → Bytes → Bytes
unfolding put_u32
build_message e sender_id opcode payload =
    let length' : ℕ = (header_len + length payload) % 65536 in
    put_u32 e (put_u32 e [] sender_id) (length' * 65536 + opcode) ++ payload

-- A built message is its header, then its payload.
pub length-build_message :
    (e : Endian) (s o : ℕ) (p : Bytes) → length (build_message e s o p) ≡ header_len + length p
unfolding build_message
length-build_message e s o p =
    let length' : ℕ = (header_len + length p) % 65536 in
    let word2 = to_ne_bytes e (length' * 65536 + o) in
    omega (
      arith,
      length-append {0} (to_ne_bytes e s ++ word2) p,
      length-append {0} (to_ne_bytes e s) word2,
      length-to_ne_bytes e s,
      length-to_ne_bytes e (length' * 65536 + o),
    )

-- The header of a built message is what was put in, as long as the length fits its 16 bits.
pub parse-build_message :
    (e : Endian) (s o : ℕ) (p rest : Bytes)
    → s < 2 ^ 32
    → o < 65536
    → header_len + length p < 65536
    → parse e (build_message e s o p ++ rest)
      ≡ some (record { sender_id = s; opcode = o; length = header_len + length p })
unfolding parse build_message from_ne_bytes to_ne_bytes
parse-build_message little s o p rest hs ho hp = ground arith
parse-build_message big s o p rest hs ho hp = ground arith

-- A message that is built of a 32-bit sender, a 16-bit opcode and a payload that leaves it
-- shorter than 65536 bytes is split off whole from whatever follows it.
pub take_message-build_message :
    (e : Endian) (s o : ℕ) (p rest : Bytes)
    → s < 2 ^ 32
    → o < 65536
    → header_len + length p < 65536
    → take_message e (build_message e s o p ++ rest)
      ≡ some (build_message e s o p, header_len + length p)
unfolding take_message
take_message-build_message e s o p rest hs ho hp =
    let built = length-build_message e s o p in
    rw (parse-build_message e s o p rest hs ho hp, take_message)
      (ground (
        arith,
        built,
        length-append (build_message e s o p) rest,
        take-append_self (build_message e s o p) rest,
      ))

-- What is split off is a prefix of the buffer, of the length that comes with it, which is at
-- least that of a header and at most the buffer's.
pub take_message_prefix :
    (e : Endian) (buf msg : Bytes) (len : ℕ)
    → take_message e buf ≡ some (msg, len)
    → (msg ≡ take len buf) × (length msg ≡ len) × (8 ≤ len) × (len ≤ length buf)
unfolding take_message
take_message_prefix e buf msg len h = ground (arith, length-take_of_le len buf)
