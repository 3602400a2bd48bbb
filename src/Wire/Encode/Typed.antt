-- ===== src/Wire/Encode/Typed.antt =====
-- When the encoder of src/wire.rs succeeds, and what it then writes.
use wl_resprox.Prelude.{
  ℕ, suc, ◌+◌, ◌-◌, ◌%◌, ◌^◌, ◌≡◌, refl, ap, ◌∙◌, Bool, true, false, ◌&&◌, List, [], ◌∷◌, ◌++◌,
  length, replicate, arith, ◌⊎◌, inl, inr, Bool-cases, ◌==◌,
}
use mathlib.Core.List.{append_assoc, append-nil}
use wl_resprox.Wire.Words.{Bytes, Endian, to_ne_bytes, put_u32}
use wl_resprox.Wire.Text.{put_str, put_array, next_multiple_of_4}
use wl_resprox.Wire.Encode.{
  ArgumentType, WaylandValue, EncodeError, ok, err, encode_argument, encode_loop, encode_arguments,
}

-- The value is of the declared type.
unfoldable pub has_type : ArgumentType → WaylandValue → Bool
has_type ArgumentType.int (WaylandValue.int v) = true
has_type ArgumentType.uint (WaylandValue.uint v) = true
has_type ArgumentType.fixed (WaylandValue.fixed v) = true
has_type ArgumentType.str (WaylandValue.string s) = true
has_type ArgumentType.object (WaylandValue.object v) = true
has_type ArgumentType.new_id (WaylandValue.new_id v) = true
has_type ArgumentType.array (WaylandValue.array bytes) = true
has_type ArgumentType.fd (WaylandValue.fd v) = true
has_type _ _ = false

-- As many values as declared types, each of its type.
unfoldable pub well_typed : List ArgumentType → List WaylandValue → Bool
unfolding has_type
well_typed [] [] = true
well_typed (t ∷ ts) (v ∷ vs) = has_type t v && well_typed ts vs
well_typed _ _ = false

-- The wire bytes of one value: a word, or a length, the content and zeros up to a multiple of four.
unfoldable pub bytes_of : Endian → WaylandValue → Bytes
bytes_of e (WaylandValue.int v) = to_ne_bytes e v
bytes_of e (WaylandValue.uint v) = to_ne_bytes e v
bytes_of e (WaylandValue.fixed v) = to_ne_bytes e v
bytes_of e (WaylandValue.object v) = to_ne_bytes e v
bytes_of e (WaylandValue.new_id v) = to_ne_bytes e v
bytes_of e (WaylandValue.fd v) = []
bytes_of e (WaylandValue.string s) =
    to_ne_bytes e ((length s + 1) % 2 ^ 32)
    ++ s
    ++ 0 ∷ replicate (next_multiple_of_4 (length s + 1) - (length s + 1)) 0
bytes_of e (WaylandValue.array bytes) =
    to_ne_bytes e (length bytes % 2 ^ 32)
    ++ bytes
    ++ replicate (next_multiple_of_4 (length bytes) - length bytes) 0

unfoldable pub fds_of : WaylandValue → List ℕ
fds_of (WaylandValue.fd v) = v ∷ []
fds_of _ = []

unfoldable pub all_bytes : Endian → List WaylandValue → Bytes
unfolding bytes_of
all_bytes e [] = []
all_bytes e (v ∷ vs) = bytes_of e v ++ all_bytes e vs

unfoldable pub all_fds : List WaylandValue → List ℕ
unfolding fds_of
all_fds [] = []
all_fds (v ∷ vs) = fds_of v ++ all_fds vs

module _ (e : Endian) where
  encode_argument_typed :
      (i : ℕ) (t : ArgumentType) (v : WaylandValue) (p : Bytes) (fds : List ℕ)
      → has_type t v ≡ true
      → encode_argument e i t v p fds ≡ ok (p ++ bytes_of e v) (fds ++ fds_of v)
  unfolding has_type encode_argument bytes_of fds_of put_u32 put_str put_array
  encode_argument_typed i ArgumentType.int (WaylandValue.int v) p fds h = simp append-nil
  encode_argument_typed i ArgumentType.uint (WaylandValue.uint v) p fds h = simp append-nil
  encode_argument_typed i ArgumentType.fixed (WaylandValue.fixed v) p fds h = simp append-nil
  encode_argument_typed i ArgumentType.str (WaylandValue.string s) p fds h =
      simp (append-nil, append_assoc)
  encode_argument_typed i ArgumentType.object (WaylandValue.object v) p fds h = simp append-nil
  encode_argument_typed i ArgumentType.new_id (WaylandValue.new_id v) p fds h = simp append-nil
  encode_argument_typed i ArgumentType.array (WaylandValue.array v) p fds h =
      simp (append-nil, append_assoc)
  encode_argument_typed i ArgumentType.fd (WaylandValue.fd v) p fds h = simp append-nil
  encode_argument_typed i _ _ p fds h = cc

  encode_argument_ill_typed :
      (i : ℕ) (t : ArgumentType) (v : WaylandValue) (p : Bytes) (fds : List ℕ)
      → has_type t v ≡ false
      → (x : EncodeError) × (encode_argument e i t v p fds ≡ err x)
  unfolding has_type encode_argument
  encode_argument_ill_typed i ArgumentType.int (WaylandValue.int v) p fds h = cc
  encode_argument_ill_typed i ArgumentType.uint (WaylandValue.uint v) p fds h = cc
  encode_argument_ill_typed i ArgumentType.fixed (WaylandValue.fixed v) p fds h = cc
  encode_argument_ill_typed i ArgumentType.str (WaylandValue.string v) p fds h = cc
  encode_argument_ill_typed i ArgumentType.object (WaylandValue.object v) p fds h = cc
  encode_argument_ill_typed i ArgumentType.new_id (WaylandValue.new_id v) p fds h = cc
  encode_argument_ill_typed i ArgumentType.array (WaylandValue.array v) p fds h = cc
  encode_argument_ill_typed i ArgumentType.fd (WaylandValue.fd v) p fds h = cc
  encode_argument_ill_typed i _ _ p fds h = (EncodeError.type_mismatch i, refl)

  encode_loop_typed :
      (i : ℕ) (ts : List ArgumentType) (vs : List WaylandValue) (p : Bytes) (fds : List ℕ)
      → well_typed ts vs ≡ true
      → encode_loop e i ts vs p fds ≡ ok (p ++ all_bytes e vs) (fds ++ all_fds vs)
  unfolding well_typed encode_loop all_bytes all_fds
  encode_loop_typed i [] [] p fds h = simp append-nil
  encode_loop_typed i (t ∷ ts) (v ∷ vs) p fds h = elim (Bool-cases (has_type t v)) [
    | inl typed ↦
        rw (encode_argument_typed i t v p fds typed, encode_loop)
          (encode_loop_typed (suc i) ts vs (p ++ bytes_of e v) (fds ++ fds_of v)
              (rw (typed, well_typed) at h)
            ∙ simp append_assoc)
    | inr ill ↦ absurd (ground arith)
  ]
  encode_loop_typed i _ _ p fds h = cc

  encode_loop_ill_typed :
      (i : ℕ) (ts : List ArgumentType) (vs : List WaylandValue) (p : Bytes) (fds : List ℕ)
      → length vs ≡ length ts
      → well_typed ts vs ≡ false
      → (x : EncodeError) × (encode_loop e i ts vs p fds ≡ err x)
  unfolding well_typed encode_loop
  encode_loop_ill_typed i [] [] p fds n h = cc
  encode_loop_ill_typed i (t ∷ ts) (v ∷ vs) p fds n h = elim (Bool-cases (has_type t v)) [
    | inl typed ↦
        rw (encode_argument_typed i t v p fds typed, encode_loop)
          (encode_loop_ill_typed (suc i) ts vs _ _ (omega arith) (ground arith))
    | inr ill ↦
        let (x, failed) = encode_argument_ill_typed i t v p fds ill in (x, rw (failed, encode_loop))
  ]
  encode_loop_ill_typed i _ _ p fds n h = absurd (omega arith)

  length-well_typed :
      (ts : List ArgumentType) (vs : List WaylandValue)
      → well_typed ts vs ≡ true
      → length vs ≡ length ts
  unfolding well_typed
  length-well_typed [] [] h = refl
  length-well_typed (t ∷ ts) (v ∷ vs) h = ap suc (length-well_typed ts vs (ground arith))
  length-well_typed _ _ h = cc

  -- Arguments that match the signature in number and type are all encoded, in order, and the
  -- descriptors go beside the bytes; any others are refused, and nothing is encoded.
  pub encode_arguments_total :
      (ts : List ArgumentType) (vs : List WaylandValue)
      → ((well_typed ts vs ≡ true) × (encode_arguments e ts vs ≡ ok (all_bytes e vs) (all_fds vs)))
        ⊎ ((well_typed ts vs ≡ false) × ((x : EncodeError) × (encode_arguments e ts vs ≡ err x)))
  unfolding encode_arguments
  encode_arguments_total ts vs = elim (Bool-cases (well_typed ts vs)) [
    | inl typed ↦ inl (
      typed,
      ground (arith, length-well_typed ts vs typed, encode_loop_typed 0 ts vs [] [] typed),
    )
    | inr ill ↦ elim (Bool-cases (length vs == length ts)) [
      | inl same ↦
          let (x, failed) = encode_loop_ill_typed 0 ts vs [] [] (ground arith) ill in
          inr (ill, (x, rw (same, encode_arguments) failed))
      | inr other ↦ inr (ill, (EncodeError.count_mismatch (length ts) (length vs), rw other))
    ]
  ]
