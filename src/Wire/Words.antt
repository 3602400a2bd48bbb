-- ===== src/Wire/Words.antt =====
-- src/wire.rs: 32-bit words in the byte order of the machine. A byte is a number below 256, and a
-- `u32` a number below 2 ^ 32; an `i32`, which the program only casts, is its bit pattern.
use wl_resprox.Prelude.{
  ℕ, zero, suc, ◌+◌, ◌*◌, ◌/◌, ◌%◌, ◌^◌, ◌≤◌, ◌<◌, ◌≡◌, refl, ap, List, [], ◌∷◌, ◌++◌, Option, none,
  some, arith, length, drop, length-append,
}

abbrev pub Bytes : Type 0
Bytes = List ℕ

-- The byte order is the host's; every statement holds for both.
pub data Endian : Type 0 where
  little big : Endian

-- `u32::from_ne_bytes` of four bytes.
unfoldable pub from_ne_bytes : Endian → ℕ → ℕ → ℕ → ℕ → ℕ
from_ne_bytes little a b c d = a + 256 * b + 65536 * c + 16777216 * d
from_ne_bytes big a b c d = d + 256 * c + 65536 * b + 16777216 * a

-- `u32::to_ne_bytes`.
unfoldable pub to_ne_bytes : Endian → ℕ → Bytes
to_ne_bytes little v = (v % 256) ∷ (v / 256 % 256) ∷ (v / 65536 % 256) ∷ (v / 16777216 % 256) ∷ []
to_ne_bytes big v = (v / 16777216 % 256) ∷ (v / 65536 % 256) ∷ (v / 256 % 256) ∷ (v % 256) ∷ []

-- The first four bytes of a slice, as a word.
unfoldable pub first_u32 : Endian → Bytes → Option ℕ
unfolding from_ne_bytes
first_u32 e (a ∷ b ∷ c ∷ d ∷ rest) = some (from_ne_bytes e a b c d)
first_u32 e _ = none

unfoldable pub read_u32 : Endian → Bytes → ℕ → Option ℕ
unfolding first_u32
read_u32 e payload offset = first_u32 e (drop offset payload)

-- `msg[at..at + 4].copy_from_slice(&v.to_ne_bytes())`, which the program does at offsets in range.
unfoldable pub write_u32_at : Endian → ℕ → ℕ → Bytes → Bytes
unfolding to_ne_bytes
write_u32_at e zero v (a ∷ b ∷ c ∷ d ∷ rest) = to_ne_bytes e v ++ rest
write_u32_at e (suc at) v (a ∷ rest) = a ∷ write_u32_at e at v rest
write_u32_at e _ v bytes = bytes

unfoldable pub put_u32 : Endian → Bytes → ℕ → Bytes
unfolding to_ne_bytes
put_u32 e buf v = buf ++ to_ne_bytes e v

pub length-to_ne_bytes : (e : Endian) (v : ℕ) → length (to_ne_bytes e v) ≡ 4
unfolding to_ne_bytes
length-to_ne_bytes little v = refl
length-to_ne_bytes big v = refl

pub first_u32-to_ne_bytes :
    (e : Endian) (v : ℕ) (rest : Bytes)
    → v < 2 ^ 32
    → first_u32 e (to_ne_bytes e v ++ rest) ≡ some v
unfolding first_u32 to_ne_bytes
first_u32-to_ne_bytes little v rest h = ap some (omega arith)
first_u32-to_ne_bytes big v rest h = ap some (omega arith)

-- A number that does not fit is cut to its low 32 bits.
first_u32-to_ne_bytes_mod :
    (e : Endian) (v : ℕ) (rest : Bytes) → first_u32 e (to_ne_bytes e v ++ rest) ≡ some (v % 2 ^ 32)
unfolding first_u32 to_ne_bytes
first_u32-to_ne_bytes_mod little v rest = ap some (omega arith)
first_u32-to_ne_bytes_mod big v rest = ap some (omega arith)

-- A slice of four bytes or more has a word.
pub first_u32_total : (e : Endian) (p : Bytes) → 4 ≤ length p → (v : ℕ) × (first_u32 e p ≡ some v)
unfolding first_u32
first_u32_total e [] h = absurd (omega arith)
first_u32_total e (a ∷ []) h = absurd (omega arith)
first_u32_total e (a ∷ b ∷ []) h = absurd (omega arith)
first_u32_total e (a ∷ b ∷ c ∷ []) h = absurd (omega arith)
first_u32_total e (a ∷ b ∷ c ∷ d ∷ p) h = (_, refl)

pub drop_word :
    (e : Endian) (v k : ℕ) (p : Bytes)
    → drop (suc (suc (suc (suc k)))) (to_ne_bytes e v ++ p) ≡ drop k p
unfolding to_ne_bytes
drop_word little v k p = refl
drop_word big v k p = refl

module _ (e : Endian) where
  pub length-write_u32_at : (at v : ℕ) (p : Bytes) → length (write_u32_at e at v p) ≡ length p
  unfolding write_u32_at
  length-write_u32_at zero v (a ∷ b ∷ c ∷ d ∷ p) =
      omega (arith, length-append {0} (to_ne_bytes e v) p, length-to_ne_bytes e v)
  length-write_u32_at (suc at) v (a ∷ p) = ap suc (length-write_u32_at at v p)
  length-write_u32_at _ v p = refl

  pub read_u32-write_u32_at :
      (at v : ℕ) (p : Bytes)
      → v < 2 ^ 32
      → at + 4 ≤ length p
      → read_u32 e (write_u32_at e at v p) at ≡ some v
  unfolding write_u32_at read_u32
  read_u32-write_u32_at zero v (a ∷ b ∷ c ∷ d ∷ p) h k = first_u32-to_ne_bytes e v p h
  read_u32-write_u32_at (suc at) v (a ∷ p) h k = read_u32-write_u32_at at v p h (omega arith)
  read_u32-write_u32_at _ v p h k = absurd (omega arith)

  pub read_u32-write_u32_at_mod :
      (at v : ℕ) (p : Bytes)
      → at + 4 ≤ length p
      → read_u32 e (write_u32_at e at v p) at ≡ some (v % 2 ^ 32)
  unfolding write_u32_at read_u32
  read_u32-write_u32_at_mod zero v (a ∷ b ∷ c ∷ d ∷ p) k = first_u32-to_ne_bytes_mod e v p
  read_u32-write_u32_at_mod (suc at) v (a ∷ p) k = read_u32-write_u32_at_mod at v p (omega arith)
  read_u32-write_u32_at_mod _ v p k = absurd (omega arith)

  -- A write does not show at offsets past it, nor before it.
  pub drop-write_u32_at :
      (at v : ℕ) (p : Bytes) (off : ℕ)
      → at + 4 ≤ off
      → drop off (write_u32_at e at v p) ≡ drop off p
  unfolding write_u32_at
  drop-write_u32_at zero v (a ∷ b ∷ c ∷ d ∷ p) (suc (suc (suc (suc off)))) h = drop_word e v off p
  drop-write_u32_at (suc at) v (a ∷ p) (suc off) h = drop-write_u32_at at v p off (omega arith)
  drop-write_u32_at (suc at) v (a ∷ p) zero h = absurd (omega arith)
  drop-write_u32_at _ v p off h = ground arith

  pub read_u32-write_u32_at_before :
      (at v : ℕ) (p : Bytes) (off : ℕ)
      → off + 4 ≤ at
      → read_u32 e (write_u32_at e at v p) off ≡ read_u32 e p off
  unfolding write_u32_at read_u32
  read_u32-write_u32_at_before (suc at) v (a ∷ p) (suc off) h =
      read_u32-write_u32_at_before at v p off (omega arith)
  read_u32-write_u32_at_before (suc (suc (suc (suc at)))) v (a ∷ b ∷ c ∷ d ∷ p) zero h = refl
  read_u32-write_u32_at_before at v p off h = ground arith
