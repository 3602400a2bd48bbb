-- ===== src/Wire/Text.antt =====
-- src/wire.rs: wire strings and arrays. A Rust `String` is its bytes, which are valid UTF-8.
pub mod RoundTrip
use wl_resprox.Prelude.{
  ℕ, ◌+◌, ◌-◌, ◌*◌, ◌/◌, ◌%◌, ◌^◌, Bool, true, false, ◌&&◌, [], ◌∷◌, ◌++◌, Option, none, some,
  length, take, drop, replicate, leb, if◌then◌else◌,
}
use wl_resprox.Wire.Words.{Bytes, Endian, read_u32, put_u32}

-- The state of `std::str::from_utf8` between two bytes: how many continuation bytes are due, with
-- the narrower range that the second byte of some sequences has.
pub data Utf8 : Type 0 where
  start one two three after_e0 after_ed after_f0 after_f4 bad : Utf8

between : ℕ → ℕ → ℕ → Bool
between lo hi b = leb lo b && leb b hi

lead_byte : ℕ → Utf8
unfolding between
lead_byte b =
    if leb b 0x7f
    then start
    else if between 0xc2 0xdf b
    then one
    else if between 0xe0 0xe0 b
    then after_e0
    else if between 0xed 0xed b
    then after_ed
    else if between 0xe1 0xef b
    then two
    else if between 0xf0 0xf0 b
    then after_f0
    else if between 0xf1 0xf3 b
    then three
    else if between 0xf4 0xf4 b
    then after_f4
    else bad

utf8_step : Utf8 → ℕ → Utf8
unfolding lead_byte
utf8_step start b = lead_byte b
utf8_step one b = if between 0x80 0xbf b then start else bad
utf8_step two b = if between 0x80 0xbf b then one else bad
utf8_step three b = if between 0x80 0xbf b then two else bad
utf8_step after_e0 b = if between 0xa0 0xbf b then one else bad
utf8_step after_ed b = if between 0x80 0x9f b then one else bad
utf8_step after_f0 b = if between 0x90 0xbf b then two else bad
utf8_step after_f4 b = if between 0x80 0x8f b then two else bad
utf8_step bad b = bad

utf8_run : Utf8 → Bytes → Bool
unfolding utf8_step
utf8_run start [] = true
utf8_run _ [] = false
utf8_run s (b ∷ bs) = utf8_run (utf8_step s b) bs

unfoldable pub is_utf8 : Bytes → Bool
unfolding utf8_run
is_utf8 bytes = utf8_run start bytes

unfoldable pub from_utf8 : Bytes → Option Bytes
unfolding is_utf8
from_utf8 bytes = if is_utf8 bytes then some bytes else none

-- `n.next_multiple_of(4)`.
unfoldable pub next_multiple_of_4 : ℕ → ℕ
next_multiple_of_4 n = (n + 3) / 4 * 4

-- `payload.get(start..start + len)`.
unfoldable pub slice : Bytes → ℕ → ℕ → Option Bytes
slice payload from len =
    if leb (from + len) (length payload) then some (take len (drop from payload)) else none

unfoldable pub put_str : Endian → Bytes → Bytes → Bytes
unfolding put_u32 next_multiple_of_4
put_str e buf s =
    let with_nul_len : ℕ = length s + 1 in
    let padded = next_multiple_of_4 with_nul_len in
    put_u32 e buf (with_nul_len % 2 ^ 32) ++ s ++ 0 ∷ replicate (padded - with_nul_len) 0

unfoldable pub put_array : Endian → Bytes → Bytes → Bytes
unfolding put_u32 next_multiple_of_4
put_array e buf bytes =
    put_u32 e buf (length bytes % 2 ^ 32)
    ++ bytes
    ++ replicate (next_multiple_of_4 (length bytes) - length bytes) 0

-- The text with its NUL cut off, and the offset past the padding.
unfoldable pub read_str : Endian → Bytes → ℕ → Option (Bytes × ℕ)
unfolding read_u32 slice from_utf8 next_multiple_of_4
read_str e payload offset = elim (read_u32 e payload offset) [
  | none ↦ none
  | some len ↦
      let start' : ℕ = offset + 4 in
      elim (slice payload start' len) [
        | none ↦ none
        | some bytes ↦ elim (from_utf8 (take (len - 1) bytes)) [
          | none ↦ none
          | some s ↦ some (s, start' + next_multiple_of_4 len)
        ]
      ]
]
