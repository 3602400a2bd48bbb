-- ===== src/Wire/Hex.antt =====
-- src/wire.rs: `hex_encode`, which the recorder uses.
use wl_resprox.Prelude.{
  ℕ, ◌+◌, ◌*◌, ◌-◌, ◌/◌, ◌%◌, ◌<◌, ◌≡◌, refl, ap, List, [], ◌∷◌, Option, some, none, if◌then◌else◌,
  leb, ◌&&◌, ltb, All, arith,
}
use wl_resprox.Wire.Words.{Bytes}
use wl_resprox.Relay.Capture.{◌>>=◌}

-- A digit below 16, as the code of its character.
unfoldable pub hex_digit : ℕ → ℕ
hex_digit n = if ltb n 10 then 48 + n else 87 + n

-- `{b:02x}` for each byte.
unfoldable pub hex_encode : Bytes → List ℕ
unfolding hex_digit
hex_encode [] = []
hex_encode (b ∷ bytes) = hex_digit (b / 16) ∷ hex_digit (b % 16) ∷ hex_encode bytes

-- The value of a hexadecimal digit, none for any other character.
unfoldable pub digit_value : ℕ → Option ℕ
digit_value c =
    if leb 48 c && leb c 57
    then some (c - 48)
    else if leb 97 c && leb c 102
    then some (c - 87)
    else none

-- Two digits to a byte. A text with another character, or with half a byte, has no bytes.
unfoldable pub hex_decode : List ℕ → Option Bytes
unfolding digit_value
hex_decode [] = some []
hex_decode (c ∷ []) = none
hex_decode (c ∷ d ∷ rest) = do
  high ← digit_value c
  low ← digit_value d
  bytes ← hex_decode rest
  some ((16 * high + low) ∷ bytes)

digit_value-hex_digit : (n : ℕ) → n < 16 → digit_value (hex_digit n) ≡ some n
unfolding digit_value hex_digit
digit_value-hex_digit n h = ground arith

-- The text of bytes, each below 256, has two hexadecimal digits for each byte, 0 to 9 and a to f, and
-- reads back as these bytes, in order.
pub hex_decode-hex_encode :
    (bytes : Bytes) → All (λ b. b < 256) bytes → hex_decode (hex_encode bytes) ≡ some bytes
unfolding hex_decode hex_encode
hex_decode-hex_encode [] small = refl
hex_decode-hex_encode (b ∷ bytes) (small, rest) =
    rw
      (
        digit_value-hex_digit (b / 16) (omega arith),
        digit_value-hex_digit (b % 16) (omega arith),
        hex_decode-hex_encode bytes rest,
      )
      (ap (λ x. some (x ∷ bytes)) (omega arith))
