-- ===== src/Wire/Text/RoundTrip.antt =====
-- src/wire.rs: a string that is written is read back.
use mathlib.Core.List.{append_assoc}
use native.Mathlib.Nat.{mod-eq_of_lt}
use wl_resprox.Prelude.{
  ℕ, zero, suc, ◌+◌, ◌-◌, ◌≤◌, ◌<◌, ◌^◌, ◌%◌, ◌≡◌, refl, sym, ap, ◌∙◌, true, [], ◌∷◌, ◌++◌, some,
  arith, length, take, drop, replicate, le→leb, length-append, length-replicate, drop-append_self,
  take-append_self, drop-drop,
}
use wl_resprox.Wire.Words.{
  Bytes, Endian, to_ne_bytes, read_u32, put_u32, length-to_ne_bytes, first_u32-to_ne_bytes,
  drop_word,
}
use wl_resprox.Wire.Text.{is_utf8, from_utf8, next_multiple_of_4, slice, put_str, read_str}

take-take-suc : (n : ℕ) (xs : Bytes) → take n (take (suc n) xs) ≡ take n xs
take-take-suc zero xs = refl
take-take-suc (suc n) [] = refl
take-take-suc (suc n) (x ∷ xs) = ap (◌∷◌ x) (take-take-suc n xs)

module _ (e : Endian) (pre s tail : Bytes) where
  read_u32-front :
      (len : ℕ)
      → len < 2 ^ 32
      → read_u32 e (pre ++ (to_ne_bytes e len ++ (s ++ tail))) (length pre) ≡ some len
  unfolding read_u32
  read_u32-front len h =
      rw (drop-append_self pre (to_ne_bytes e len ++ (s ++ tail)), read_u32)
        (first_u32-to_ne_bytes e len (s ++ tail) h)

  drop-front :
      (len : ℕ) → drop (length pre + 4) (pre ++ (to_ne_bytes e len ++ (s ++ tail))) ≡ s ++ tail
  drop-front len =
      sym (drop-drop (length pre) 4 (pre ++ (to_ne_bytes e len ++ (s ++ tail))))
      ∙ ap (drop 4) (drop-append_self pre (to_ne_bytes e len ++ (s ++ tail)))
      ∙ drop_word e len 0 (s ++ tail)

  length-front :
      (len : ℕ)
      → length (pre ++ (to_ne_bytes e len ++ (s ++ tail)))
        ≡ length pre + 4 + (length s + length tail)
  length-front len = omega (
    arith,
    length-append {0} pre (to_ne_bytes e len ++ (s ++ tail)),
    length-append {0} (to_ne_bytes e len) (s ++ tail),
    length-append {0} s tail,
    length-to_ne_bytes e len,
  )

  slice-front :
      (len : ℕ)
      → len ≤ length s + length tail
      → slice (pre ++ (to_ne_bytes e len ++ (s ++ tail))) (length pre + 4) len
        ≡ some (take len (s ++ tail))
  unfolding slice
  slice-front len h =
      rw
        (le→leb (length pre + 4 + len) (length (pre ++ (to_ne_bytes e len ++ (s ++ tail))))
          (omega (arith, length-front len)))
        (ap (λ (b : Bytes). some (take len b)) (drop-front len))

  -- A length, the text, and at least one byte behind it.
  read_str-front :
      (len : ℕ)
      → len ≡ suc (length s)
      → is_utf8 s ≡ true
      → len < 2 ^ 32
      → 1 ≤ length tail
      → read_str e (pre ++ (to_ne_bytes e len ++ (s ++ tail))) (length pre)
        ≡ some (s, length pre + 4 + next_multiple_of_4 len)
  unfolding read_str from_utf8
  read_str-front len h utf small more =
      let short : take (len - 1) (take len (s ++ tail)) ≡ s =
        ap (λ n. take n (take len (s ++ tail))) {x = len - 1} {y = length s} (omega arith)
        ∙ ap (λ n. take (length s) (take n (s ++ tail))) h
        ∙ take-take-suc (length s) (s ++ tail)
        ∙ take-append_self s tail in
      rw (read_u32-front len small, slice-front len (omega arith), short, utf, read_str) refl

length-put_str :
    (e : Endian) (pre s : Bytes)
    → length (put_str e pre s) ≡ length pre + 4 + next_multiple_of_4 (length s + 1)
unfolding put_str put_u32 next_multiple_of_4
length-put_str e pre s =
    let n = length s + 1 in
    let zeros : Bytes = replicate (next_multiple_of_4 n - n) 0 in
    let word = to_ne_bytes e (n % 2 ^ 32) in
    omega (
      arith,
      length-append {0} (pre ++ word ++ s) (0 ∷ zeros),
      length-append {0} (pre ++ word) s,
      length-append {0} pre word,
      length-to_ne_bytes e (n % 2 ^ 32),
      length-replicate {0} {A = ℕ} (next_multiple_of_4 n - n) 0,
    )

-- A string that `put_str` appends to a buffer is read back at its place, whatever follows it, with
-- the offset of what follows. The string is UTF-8 and its length, NUL included, fits a word.
pub read_str-put_str :
    (e : Endian) (pre s rest : Bytes)
    → is_utf8 s ≡ true
    → length s + 1 < 2 ^ 32
    → read_str e (put_str e pre s ++ rest) (length pre) ≡ some (s, length (put_str e pre s))
unfolding put_str put_u32
read_str-put_str e pre s rest utf small =
    let zeros : Bytes = replicate (next_multiple_of_4 (length s + 1) - (length s + 1)) 0 in
    let grouped : ◌≡◌ {A = Bytes} (put_str e pre s ++ rest)
        (pre ++ (to_ne_bytes e (length s + 1) ++ (s ++ (0 ∷ (zeros ++ rest))))) =
      rw (mod-eq_of_lt small, put_str) (simp append_assoc) in
    ap (λ (q : Bytes). read_str e q (length pre)) grouped
    ∙ read_str-front e pre s (0 ∷ (zeros ++ rest)) (length s + 1) (omega arith) utf small
        (omega arith)
    ∙ ap (λ n. some (s, n)) (sym (length-put_str e pre s))
