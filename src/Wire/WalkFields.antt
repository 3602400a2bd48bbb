-- ===== src/Wire/WalkFields.antt =====
-- src/lib.rs: the walk over one field that the encoder of src/wire.rs wrote.
use mathlib.Core.List.{append_assoc}
use native.Mathlib.Nat.{mod-eq_of_lt}
use wl_resprox.Prelude.{
  ℕ, ◌+◌, ◌-◌, ◌^◌, ◌≤◌, ◌<◌, ◌≡◌, refl, sym, ap, ◌∙◌, true, ◌∷◌, ◌++◌, Option, none, some, length,
  take, drop, replicate, arith, length-append, length-replicate, drop-append_self, take-append_self,
  drop-drop,
}
use wl_resprox.Wire.Words.{
  Bytes, Endian, to_ne_bytes, read_u32, length-to_ne_bytes, first_u32-to_ne_bytes, drop_word,
}
use wl_resprox.Wire.Text.{is_utf8, from_utf8, next_multiple_of_4}
use wl_resprox.Wire.Encode.{ArgumentType, WaylandValue}
use wl_resprox.Wire.Encode.Typed.{bytes_of}
use wl_resprox.Wire.Walk.{
  SignatureWalk, Walked, ok, field_end, checked_add, note_name, walk_sized, walk_argument,
}
use wl_resprox.Wire.Describe.{wire_size, describe_value}

module _ (e : Endian) where
  -- A field that the payload holds.
  pub field_end_within :
      (payload : Bytes) (offset size : ℕ) (k : ℕ → Walked)
      → offset + size ≤ length payload
      → length payload < 2 ^ 64
      → field_end payload offset size k ≡ k (offset + size)
  unfolding field_end checked_add
  field_end_within payload offset size k h b = ground arith

  pub read_u32_at :
      (pre rest : Bytes) (v : ℕ)
      → v < 2 ^ 32
      → read_u32 e (pre ++ (to_ne_bytes e v ++ rest)) (length pre) ≡ some v
  unfolding read_u32
  read_u32_at pre rest v h =
      rw (drop-append_self pre (to_ne_bytes e v ++ rest), read_u32)
        (first_u32-to_ne_bytes e v rest h)

  -- A word in a payload lies within it.
  pub word_within :
      (pre rest : Bytes) (v : ℕ) → length pre + 4 ≤ length (pre ++ (to_ne_bytes e v ++ rest))
  word_within pre rest v = omega (
    arith,
    length-append {0} pre (to_ne_bytes e v ++ rest),
    length-append {0} (to_ne_bytes e v) rest,
    length-to_ne_bytes e v,
  )

  pub drop_past_word :
      (pre rest : Bytes) (v : ℕ) → drop (length pre + 4) (pre ++ (to_ne_bytes e v ++ rest)) ≡ rest
  drop_past_word pre rest v =
      sym (drop-drop (length pre) 4 (pre ++ (to_ne_bytes e v ++ rest)))
      ∙ ap (drop 4) (drop-append_self pre (to_ne_bytes e v ++ rest))
      ∙ drop_word e v 0 rest

  pub walk_sized_encoded :
      (pre content rest : Bytes) (len : ℕ) (k : ℕ → ℕ → SignatureWalk)
      → len < 2 ^ 32
      → length content ≡ next_multiple_of_4 len
      → length (pre ++ (to_ne_bytes e len ++ (content ++ rest))) < 2 ^ 64
      → walk_sized e (pre ++ (to_ne_bytes e len ++ (content ++ rest))) (length pre) k
        ≡ ok (length pre + 4 + next_multiple_of_4 len) (k (length pre + 4) len)
  unfolding walk_sized
  walk_sized_encoded pre content rest len k small fits b =
      let payload : Bytes = pre ++ (to_ne_bytes e len ++ (content ++ rest)) in
      field_end_within payload (length pre) 4 _ (word_within pre (content ++ rest) len) b
      ∙ rw (read_u32_at pre (content ++ rest) len small, walk_sized)
          (field_end_within payload (length pre + 4) (next_multiple_of_4 len) _
            (omega (
              arith,
              length-append {0} pre (to_ne_bytes e len ++ (content ++ rest)),
              length-append {0} (to_ne_bytes e len) (content ++ rest),
              length-append {0} content rest,
              length-to_ne_bytes e len,
            ))
            b)

  -- The name noted at a string is the string, unless one was noted before.
  pub note_name_encoded :
      (pre s tail : Bytes) (len : ℕ) (o : Option Bytes)
      → len ≡ length s + 1
      → is_utf8 s ≡ true
      → note_name (pre ++ (to_ne_bytes e len ++ (s ++ tail))) (length pre + 4) len o
        ≡ elim o [ none ↦ some s | some n ↦ some n ]
  unfolding note_name from_utf8
  note_name_encoded pre s tail len (some n) h u = refl
  note_name_encoded pre s tail len none h u = rw (drop_past_word pre (s ++ tail) len) (
      ground (
        arith,
        take-append_self s tail,
        ap (λ n. take n (s ++ tail)) {x = len - 1} {y = length s} (omega arith),
      ))

  pub zeros : ℕ → Bytes
  zeros n = replicate (next_multiple_of_4 n - n) 0

  -- A string or array on the wire, grouped to the right.
  pub bytes_of-string :
      (s rest : Bytes)
      → length s + 1 < 2 ^ 32
      → bytes_of e (WaylandValue.string s) ++ rest
        ≡ to_ne_bytes e (length s + 1) ++ ((s ++ 0 ∷ zeros (length s + 1)) ++ rest)
  unfolding bytes_of zeros
  bytes_of-string s rest h = rw (mod-eq_of_lt h, bytes_of) (simp append_assoc)

  pub bytes_of-array :
      (s rest : Bytes)
      → length s < 2 ^ 32
      → bytes_of e (WaylandValue.array s) ++ rest
        ≡ to_ne_bytes e (length s) ++ ((s ++ zeros (length s)) ++ rest)
  unfolding bytes_of zeros
  bytes_of-array s rest h = rw (mod-eq_of_lt h, bytes_of) (simp append_assoc)

  pub length-padded :
      (s : Bytes) (n : ℕ) → n ≡ length s → length (s ++ zeros n) ≡ next_multiple_of_4 n
  unfolding zeros next_multiple_of_4
  length-padded s n h = omega (
    arith,
    length-append {0} s (zeros n),
    length-replicate {0} {A = ℕ} (next_multiple_of_4 n - n) 0,
  )

  pub length-nul :
      (s : Bytes) → length (s ++ 0 ∷ zeros (length s + 1)) ≡ next_multiple_of_4 (length s + 1)
  unfolding zeros next_multiple_of_4
  length-nul s = omega (
    arith,
    length-append {0} s (0 ∷ zeros (length s + 1)),
    length-replicate {0} {A = ℕ} (next_multiple_of_4 (length s + 1) - (length s + 1)) 0,
  )

  pub walk_sized_at :
      (q pre content rest : Bytes) (len : ℕ) (k : ℕ → ℕ → SignatureWalk)
      → q ≡ pre ++ (to_ne_bytes e len ++ (content ++ rest))
      → len < 2 ^ 32
      → length content ≡ next_multiple_of_4 len
      → length q < 2 ^ 64
      → walk_sized e q (length pre) k
        ≡ ok (length pre + 4 + next_multiple_of_4 len) (k (length pre + 4) len)
  walk_sized_at q pre content rest len k shape small fits b =
      rw shape (walk_sized_encoded pre content rest len k small fits (rw shape at b))

  pub note_name_at :
      (q pre s tail : Bytes) (len : ℕ) (o : Option Bytes)
      → q ≡ pre ++ (to_ne_bytes e len ++ (s ++ tail))
      → len ≡ length s + 1
      → is_utf8 s ≡ true
      → note_name q (length pre + 4) len o ≡ elim o [ none ↦ some s | some n ↦ some n ]
  note_name_at q pre s tail len o shape h u = rw shape (note_name_encoded pre s tail len o h u)

  pub walk_str_encoded :
      (q pre s rest : Bytes) (w : SignatureWalk)
      → q ≡ pre ++ (to_ne_bytes e (length s + 1) ++ ((s ++ 0 ∷ zeros (length s + 1)) ++ rest))
      → is_utf8 s ≡ true
      → length s + 1 < 2 ^ 32
      → length q < 2 ^ 64
      → walk_argument e q ArgumentType.str (length pre) w
        ≡ ok
            (length pre + wire_size (WaylandValue.string s))
            (describe_value (length pre) (WaylandValue.string s) w)
  unfolding walk_argument wire_size describe_value
  walk_str_encoded q pre s rest w shape u small b =
      walk_sized_at q pre (s ++ 0 ∷ zeros (length s + 1)) rest (length s + 1) _ shape small
        (length-nul s) b
      ∙ rw
          (note_name_at q pre s (0 ∷ zeros (length s + 1) ++ rest) (length s + 1)
            w.dynamic_interface_name (shape ∙ simp append_assoc) refl u)
          (ap (λ n. ok n (describe_value (length pre) (WaylandValue.string s) w)) (omega arith))

  pub walk_array_encoded :
      (q pre s rest : Bytes) (w : SignatureWalk)
      → q ≡ pre ++ (to_ne_bytes e (length s) ++ ((s ++ zeros (length s)) ++ rest))
      → length s < 2 ^ 32
      → length q < 2 ^ 64
      → walk_argument e q ArgumentType.array (length pre) w
        ≡ ok (length pre + wire_size (WaylandValue.array s)) w
  unfolding walk_argument wire_size
  walk_array_encoded q pre s rest w shape small b =
      walk_sized_at q pre (s ++ zeros (length s)) rest (length s) (λ len_end len. w) shape small
        (length-padded s (length s) refl) b
      ∙ ap (λ n. ok n w) (omega arith)
