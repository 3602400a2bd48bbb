-- ===== src/Relay/Addressing.antt =====
-- src/lib.rs: what the receiver of a message reads in the place of its object arguments.
use wl_resprox.Prelude.{
  ℕ, ◌+◌, ◌≤◌, ◌^◌, ◌%◌, ◌≡◌, sym, ap, ◌∙◌, true, List, [], ◌∷◌, some, arith, length, length-drop,
  drop, ◌-◌, Bool-cases, inl, inr, Option-cases,
}
use wl_resprox.Prelude.Map.{contains}
use wl_resprox.Wire.Words.{
  Bytes, first_u32, read_u32, write_u32_at, length-write_u32_at, read_u32-write_u32_at_mod,
  drop-write_u32_at, read_u32-write_u32_at_before,
}
use wl_resprox.Wire.Header.{header_len}
use wl_resprox.Wire.Walk.{SignatureWalk, ok, walk_signature}
use wl_resprox.Wire.WalkBounds.{Spaced, walk_signature-Spaced}
use wl_resprox.Wire.Encode.{ArgumentType}
use wl_resprox.Shadow.Table.{ShadowTable}
use wl_resprox.Relay.Session.{World, Direction}
use wl_resprox.Relay.NewId.{word_at, translate, translate_objects}

Spaced-lower :
    (n lo off : ℕ) (offs : List ℕ) → Spaced n lo offs → contains off offs ≡ true → lo ≤ off
unfolding contains
Spaced-lower n lo off [] h c = cc
Spaced-lower n lo off (o ∷ offs) h c = elim (Bool-cases (contains off offs)) [
  | inl later ↦ omega (arith, h.0, Spaced-lower n (o + 4) off offs h.2 later)
  | inr here ↦ ground (arith, h.0)
]

module _ {B I : Type 0} (W : World B I) (dir : Direction) (objects : ShadowTable B I) where
  translate_objects-nil :
      (msg out : Bytes) → translate_objects W dir objects [] msg ≡ some out → msg ≡ out
  unfolding translate_objects
  translate_objects-nil msg out e = cc

  -- One argument at a time.
  translate_objects-step :
      (off : ℕ) (offs : List ℕ) (msg out : Bytes)
      → translate_objects W dir objects (off ∷ offs) msg ≡ some out
      → (t : ℕ) × (translate W dir objects (word_at (read_u32 W.endian msg (header_len + off)))
          ≡ some t)
        × (translate_objects W dir objects offs (write_u32_at W.endian (header_len + off) t msg)
            ≡ some out)
  unfolding translate_objects
  translate_objects-step off offs msg out e =
      let original = word_at (read_u32 W.endian msg (header_len + off)) in
      elim (Option-cases (translate W dir objects original)) [
        | inl gone ↦ absurd (ground arith)
        | inr (t, h) ↦ (t, h, rw (h, translate_objects) at e)
      ]

  -- What stands before all the offsets is as it was.
  translate_objects-keeps :
      (offs : List ℕ) (msg out : Bytes) (n lo at : ℕ)
      → Spaced n lo offs
      → translate_objects W dir objects offs msg ≡ some out
      → at + 4 ≤ header_len + lo
      → read_u32 W.endian out at ≡ read_u32 W.endian msg at
  translate_objects-keeps [] msg out n lo at s e b =
      ap (λ o. read_u32 W.endian o at) (sym (translate_objects-nil msg out e))
  translate_objects-keeps (off ∷ offs) msg out n lo at (above, inside, s) e b =
      let (t, h, later) = translate_objects-step off offs msg out e in
      translate_objects-keeps offs (write_u32_at W.endian (header_len + off) t msg) out n (off + 4)
        at s later (omega arith)
      ∙ read_u32-write_u32_at_before W.endian (header_len + off) t msg at (omega arith)

  length-translate_objects :
      (offs : List ℕ) (msg out : Bytes)
      → translate_objects W dir objects offs msg ≡ some out
      → length out ≡ length msg
  length-translate_objects [] msg out e =
      ap (λ (o : Bytes). length o) (sym (translate_objects-nil msg out e))
  length-translate_objects (off ∷ offs) msg out e =
      let (t, h, later) = translate_objects-step off offs msg out e in
      length-translate_objects offs (write_u32_at W.endian (header_len + off) t msg) out later
      ∙ length-write_u32_at W.endian (header_len + off) t msg

  -- A write at one argument does not show at a later one.
  same_word :
      (off o t : ℕ) (msg : Bytes)
      → o + 4 ≤ off
      → word_at
          (read_u32 W.endian (write_u32_at W.endian (header_len + o) t msg) (header_len + off))
        ≡ word_at (read_u32 W.endian msg (header_len + off))
  unfolding read_u32
  same_word off o t msg far =
      ap (λ p. word_at (first_u32 W.endian p))
        (drop-write_u32_at W.endian (header_len + o) t msg (header_len + off) (omega arith))

  translate_objects_lem :
      (offs : List ℕ) (msg out : Bytes) (lo off : ℕ)
      → Spaced (length msg - header_len) lo offs
      → header_len ≤ length msg
      → translate_objects W dir objects offs msg ≡ some out
      → contains off offs ≡ true
      → (t : ℕ) × (translate W dir objects (word_at (read_u32 W.endian msg (header_len + off)))
          ≡ some t)
        × (read_u32 W.endian out (header_len + off) ≡ some (t % 2 ^ 32))
  unfolding contains
  translate_objects_lem [] msg out lo off s z e c = cc
  translate_objects_lem (o ∷ offs) msg out lo off (above, inside, s) z e c =
      let (t, h, later) = translate_objects-step o offs msg out e in
      let msg' = write_u32_at W.endian (header_len + o) t msg in
      elim (Bool-cases (contains off offs)) [
        | inl more ↦
            let far = Spaced-lower (length msg - header_len) (o + 4) off offs s more in
            let (u, k, final) =
              translate_objects_lem offs msg' out (o + 4) off
                (rw (length-write_u32_at W.endian (header_len + o) t msg) s)
                (omega (arith, length-write_u32_at W.endian (header_len + o) t msg)) later more in
            (u, rw (same_word off o t msg far) at k, final)
        | inr last ↦
            let here : o ≡ off = ground arith in
            rw (sym here) (
              t,
              h,
              translate_objects-keeps offs msg' out (length msg - header_len) (o + 4)
                    (header_len + o) s later (omega arith)
                  ∙ read_u32-write_u32_at_mod W.endian (header_len + o) t msg (omega arith),
            )
      ]

  -- A message with a payload that the walk over its signature accepts, and that the translation of
  -- its object arguments lets through, has afterwards in the place of every object argument the id
  -- that the argument translates to, as a 32-bit word; no argument's rewriting spoils another's.
  pub translate_objects-walk_signature :
      (signature : List ArgumentType) (msg out : Bytes) (end : ℕ) (walk : SignatureWalk) (off : ℕ)
      → header_len ≤ length msg
      → walk_signature W.endian (drop header_len msg) signature ≡ ok end walk
      → translate_objects W dir objects walk.object_offsets msg ≡ some out
      → contains off walk.object_offsets ≡ true
      → (t : ℕ) × (translate W dir objects (word_at (read_u32 W.endian msg (header_len + off)))
          ≡ some t)
        × (read_u32 W.endian out (header_len + off) ≡ some (t % 2 ^ 32))
  translate_objects-walk_signature signature msg out end walk off z walked e c =
      translate_objects_lem walk.object_offsets msg out 0 off
        (rw (sym (length-drop {0} header_len msg))
          (walk_signature-Spaced W.endian (drop header_len msg) signature end walk walked))
        z e c
