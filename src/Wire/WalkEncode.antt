-- ===== src/Wire/WalkEncode.antt =====
-- src/lib.rs against src/wire.rs: the walk over a payload that the encoder wrote finds exactly what
-- the values say. `describe` reads the values, and no bytes.
use mathlib.Core.List.{append_assoc, append-nil}
use wl_resprox.Prelude.{
  ℕ, ◌+◌, ◌^◌, ◌<◌, ◌≡◌, sym, ap, ◌∙◌, true, List, [], ◌∷◌, ◌++◌, length, arith, All, length-append,
  Bool-cases, inl, inr,
}
use wl_resprox.Wire.Words.{Bytes, Endian}
use wl_resprox.Wire.Encode.{ArgumentType, WaylandValue}
use wl_resprox.Wire.Encode.Typed.{has_type, well_typed, bytes_of, all_bytes}
use wl_resprox.Wire.Walk.{SignatureWalk, ok, walk_argument, walk_loop, walk_signature, empty_walk}
use wl_resprox.Wire.Describe.{wire_size, describe_value, describe, Fits, length-bytes_of}
use wl_resprox.Wire.WalkFields.{
  field_end_within, word_within, bytes_of-string, bytes_of-array, walk_str_encoded,
  walk_array_encoded,
}

module _ (e : Endian) where
  walk_argument_encoded :
      (pre rest : Bytes) (t : ArgumentType) (v : WaylandValue) (w : SignatureWalk)
      → has_type t v ≡ true
      → Fits v
      → length (pre ++ (bytes_of e v ++ rest)) < 2 ^ 64
      → walk_argument e (pre ++ (bytes_of e v ++ rest)) t (length pre) w
        ≡ ok (length pre + wire_size v) (describe_value (length pre) v w)
  unfolding has_type bytes_of wire_size describe_value walk_argument
  walk_argument_encoded pre rest ArgumentType.int (WaylandValue.int v) w h f b =
      field_end_within e _ (length pre) 4 _ (word_within e pre rest v) b
  walk_argument_encoded pre rest ArgumentType.uint (WaylandValue.uint v) w h f b =
      field_end_within e _ (length pre) 4 _ (word_within e pre rest v) b
  walk_argument_encoded pre rest ArgumentType.fixed (WaylandValue.fixed v) w h f b =
      field_end_within e _ (length pre) 4 _ (word_within e pre rest v) b
  walk_argument_encoded pre rest ArgumentType.object (WaylandValue.object v) w h f b =
      field_end_within e _ (length pre) 4 _ (word_within e pre rest v) b
  walk_argument_encoded pre rest ArgumentType.new_id (WaylandValue.new_id v) w h f b =
      field_end_within e _ (length pre) 4 _ (word_within e pre rest v) b
  walk_argument_encoded pre rest ArgumentType.fd (WaylandValue.fd v) w h f b =
      ap (λ n. ok n (record w { fd_count = w.fd_count + 1 })) (omega arith)
  walk_argument_encoded pre rest ArgumentType.array (WaylandValue.array s) w h f b =
      walk_array_encoded e _ pre s rest w (ap (◌++◌ pre) (bytes_of-array e s rest f)) f b
  walk_argument_encoded pre rest ArgumentType.str (WaylandValue.string s) w h f b =
      walk_str_encoded e _ pre s rest w (ap (◌++◌ pre) (bytes_of-string e s rest f.1)) f.0 f.1 b
  walk_argument_encoded pre rest _ _ w h f b = cc

  walk_loop_cons :
      (q : Bytes) (t : ArgumentType) (ts : List ArgumentType) (offset : ℕ) (w : SignatureWalk)
      {offset' : ℕ} {w' : SignatureWalk}
      → walk_argument e q t offset w ≡ ok offset' w'
      → walk_loop e q (t ∷ ts) offset w ≡ walk_loop e q ts offset' w'
  unfolding walk_loop
  walk_loop_cons q t ts offset w h = rw (h, walk_loop)

  walk_loop_encoded :
      (pre : Bytes) (ts : List ArgumentType) (vs : List WaylandValue) (w : SignatureWalk)
      → well_typed ts vs ≡ true
      → All Fits vs
      → length (pre ++ all_bytes e vs) < 2 ^ 64
      → walk_loop e (pre ++ all_bytes e vs) ts (length pre) w
        ≡ ok (length (pre ++ all_bytes e vs)) (describe (length pre) vs w)
  unfolding well_typed all_bytes walk_loop describe
  walk_loop_encoded pre [] [] w h f b = rw append-nil
  walk_loop_encoded pre (t ∷ ts) (v ∷ vs) w h f b = elim (Bool-cases (has_type t v)) [
    | inl typed ↦
        let grouped : ◌≡◌ {A = Bytes} (pre ++ (bytes_of e v ++ all_bytes e vs))
            ((pre ++ bytes_of e v) ++ all_bytes e vs) =
          simp append_assoc in
        let past : length (pre ++ bytes_of e v) ≡ length pre + wire_size v =
          length-append pre (bytes_of e v) ∙ ap (λ n. length pre + n) (length-bytes_of e v f.0) in
        let w' : SignatureWalk = describe_value (length pre) v w in
        walk_loop_cons _ t ts (length pre) w
          (walk_argument_encoded pre (all_bytes e vs) t v w typed f.0 b)
        ∙ ap (λ n. walk_loop e (pre ++ (bytes_of e v ++ all_bytes e vs)) ts n w') (sym past)
        ∙ ap (λ q. walk_loop e q ts (length (pre ++ bytes_of e v)) w') grouped
        ∙ walk_loop_encoded (pre ++ bytes_of e v) ts vs w' (ground arith) f.1 (rw grouped at b)
        ∙ ap (λ q. ok (length q) (describe (length (pre ++ bytes_of e v)) vs w')) (sym grouped)
        ∙ ap (λ n. ok (length (pre ++ (bytes_of e v ++ all_bytes e vs))) (describe n vs w')) past
    | inr ill ↦ absurd (ground arith)
  ]
  walk_loop_encoded pre _ _ w h f b = cc

  -- The walk over the payload that the encoder writes for values that match the signature reads
  -- all of it, and finds what `describe` says of the values. Strings are UTF-8, their lengths and
  -- those of arrays fit a word, and the payload's fits 64 bits.
  pub walk_signature-all_bytes :
      (ts : List ArgumentType) (vs : List WaylandValue)
      → well_typed ts vs ≡ true
      → All Fits vs
      → length (all_bytes e vs) < 2 ^ 64
      → walk_signature e (all_bytes e vs) ts
        ≡ ok (length (all_bytes e vs)) (describe 0 vs empty_walk)
  unfolding walk_signature
  walk_signature-all_bytes ts vs h f b = walk_loop_encoded [] ts vs empty_walk h f b
