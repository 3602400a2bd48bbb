-- ===== src/Wire/WalkBounds.antt =====
-- src/lib.rs: where the object arguments that `walk_signature` finds can stand.
use wl_resprox.Prelude.{
  ℕ, ◌+◌, ◌≤◌, ◌≡◌, ◌⊎◌, refl, sym, ap, ◌∙◌, List, [], ◌∷◌, ◌++◌, some, arith, length, Option-cases,
  inl, inr,
}
use wl_resprox.Wire.Words.{Bytes, Endian, read_u32}
use wl_resprox.Wire.Text.{next_multiple_of_4}
use wl_resprox.Wire.Encode.{ArgumentType}
use wl_resprox.Wire.Walk.{
  SignatureWalk, Walked, WalkError, ok, err, checked_add, field_end, walk_sized, walk_argument,
  walk_loop, walk_signature, empty_walk,
}

-- The offsets are words in order, from `lo` on, which do not overlap and end within `n` bytes.
abbrev pub Spaced : ℕ → ℕ → List ℕ → Type 0
Spaced n lo [] = Unit
Spaced n lo (off ∷ offs) = (lo ≤ off) × (off + 4 ≤ n) × Spaced n (off + 4) offs

-- The same, with the last of them ending at or before `cur`.
abbrev SpacedTo : ℕ → ℕ → ℕ → List ℕ → Type 0
SpacedTo n cur lo [] = lo ≤ cur
SpacedTo n cur lo (off ∷ offs) = (lo ≤ off) × (off + 4 ≤ n) × SpacedTo n cur (off + 4) offs

SpacedTo-Spaced : (n cur lo : ℕ) (offs : List ℕ) → SpacedTo n cur lo offs → Spaced n lo offs
SpacedTo-Spaced n cur lo [] s = tt
SpacedTo-Spaced n cur lo (off ∷ offs) (a, b, s) = (a, b, SpacedTo-Spaced n cur (off + 4) offs s)

SpacedTo-later :
    (n cur end lo : ℕ) (offs : List ℕ) → cur ≤ end → SpacedTo n cur lo offs → SpacedTo n end lo offs
SpacedTo-later n cur end lo [] h s = omega arith
SpacedTo-later n cur end lo (off ∷ offs) h (a, b, s) =
    (a, b, SpacedTo-later n cur end (off + 4) offs h s)

SpacedTo-snoc :
    (n cur lo : ℕ) (offs : List ℕ)
    → cur + 4 ≤ n
    → SpacedTo n cur lo offs
    → SpacedTo n (cur + 4) lo (offs ++ cur ∷ [])
SpacedTo-snoc n cur lo [] h s = (s, h, omega arith)
SpacedTo-snoc n cur lo (off ∷ offs) h (a, b, s) = (a, b, SpacedTo-snoc n cur (off + 4) offs h s)

SpacedTo-moved :
    (n cur end : ℕ) (w w' : SignatureWalk)
    → cur ≡ end
    → w.object_offsets ≡ w'.object_offsets
    → SpacedTo n cur 0 w.object_offsets
    → SpacedTo n end 0 w'.object_offsets
SpacedTo-moved n cur end w w' a b s = rw (sym a, sym b) s

abbrev end_of : Walked → ℕ
end_of (ok end w) = end
end_of (err x) = 0

abbrev walk_of : SignatureWalk → Walked → SignatureWalk
walk_of other (ok end w) = w
walk_of other (err x) = other

offsets : {a b : ℕ} {v w : SignatureWalk} → ok a v ≡ ok b w → v.object_offsets ≡ w.object_offsets
offsets {v = v} h = ap (λ r. (walk_of v r).object_offsets) h

Walked-cases :
    (r : Walked)
    → ((end : ℕ) × (w : SignatureWalk) × (r ≡ ok end w)) ⊎ ((x : WalkError) × (r ≡ err x))
Walked-cases (ok end w) = inl (end, w, refl)
Walked-cases (err x) = inr (x, refl)

module _ (e : Endian) (payload : Bytes) where
  field_end-ok :
      (cur size end : ℕ) (k : ℕ → Walked) (w : SignatureWalk)
      → field_end payload cur size k ≡ ok end w
      → (cur + size ≤ length payload) × (k (cur + size) ≡ ok end w)
  unfolding field_end checked_add
  field_end-ok cur size end k w h = ground arith

  walk_sized-ok :
      (cur end : ℕ) (k : ℕ → ℕ → SignatureWalk) (w : SignatureWalk)
      → walk_sized e payload cur k ≡ ok end w
      → (cur ≤ end) × ((a b : ℕ) × (w ≡ k a b))
  unfolding walk_sized
  walk_sized-ok cur end k w h =
      let (inside, rest) = field_end-ok cur 4 end _ w h in
      elim (Option-cases (read_u32 e payload cur)) [
        | inl gone ↦ absurd (ground arith)
        | inr (len, found) ↦
            let (fits, done) =
              field_end-ok (cur + 4) (next_multiple_of_4 len) end _ w (rw found at rest) in
            let ends : cur + 4 + next_multiple_of_4 len ≡ end = ap end_of done in
            (omega (arith, ends), (cur + 4, len, sym (ap (walk_of w) done)))
      ]

  -- A field of one word that leaves the offsets alone.
  word-SpacedTo :
      (cur end : ℕ) (w v w' : SignatureWalk)
      → field_end payload cur 4 (λ end'. ok end' v) ≡ ok end w'
      → w.object_offsets ≡ v.object_offsets
      → SpacedTo (length payload) cur 0 w.object_offsets
      → SpacedTo (length payload) end 0 w'.object_offsets
  word-SpacedTo cur end w v w' h same s =
      let (inside, done) = field_end-ok cur 4 end _ w' h in
      SpacedTo-moved (length payload) (cur + 4) end w w' (ap end_of done) (same ∙ offsets done)
        (SpacedTo-later (length payload) cur (cur + 4) 0 w.object_offsets (omega arith) s)

  sized-SpacedTo :
      (cur end : ℕ) (w w' : SignatureWalk)
      → cur ≤ end
      → w'.object_offsets ≡ w.object_offsets
      → SpacedTo (length payload) cur 0 w.object_offsets
      → SpacedTo (length payload) end 0 w'.object_offsets
  sized-SpacedTo cur end w w' later same s =
      SpacedTo-moved (length payload) end end w w' refl (sym same)
        (SpacedTo-later (length payload) cur end 0 w.object_offsets later s)

  walk_argument-SpacedTo :
      (t : ArgumentType) (cur end : ℕ) (w w' : SignatureWalk)
      → walk_argument e payload t cur w ≡ ok end w'
      → SpacedTo (length payload) cur 0 w.object_offsets
      → SpacedTo (length payload) end 0 w'.object_offsets
  unfolding walk_argument
  walk_argument-SpacedTo ArgumentType.object cur end w w' h s =
      let v = record w { object_offsets = w.object_offsets ++ cur ∷ [] } in
      let (inside, done) = field_end-ok cur 4 end _ w' h in
      SpacedTo-moved (length payload) (cur + 4) end v w' (ap end_of done) (offsets done)
        (SpacedTo-snoc (length payload) cur 0 w.object_offsets inside s)
  walk_argument-SpacedTo ArgumentType.new_id cur end w w' h s =
      word-SpacedTo cur end w (record w { new_id_offset = some cur }) w' h refl s
  walk_argument-SpacedTo ArgumentType.str cur end w w' h s =
      let (later, (a, b, same)) = walk_sized-ok cur end _ w' h in
      sized-SpacedTo cur end w w' later (ap (λ (v : SignatureWalk). v.object_offsets) same) s
  walk_argument-SpacedTo ArgumentType.array cur end w w' h s =
      let (later, (a, b, same)) = walk_sized-ok cur end _ w' h in
      sized-SpacedTo cur end w w' later (ap (λ (v : SignatureWalk). v.object_offsets) same) s
  walk_argument-SpacedTo ArgumentType.fd cur end w w' h s =
      SpacedTo-moved (length payload) cur end w w' (ap end_of h) (offsets h) s
  walk_argument-SpacedTo ArgumentType.int cur end w w' h s = word-SpacedTo cur end w w w' h refl s
  walk_argument-SpacedTo ArgumentType.uint cur end w w' h s = word-SpacedTo cur end w w w' h refl s
  walk_argument-SpacedTo ArgumentType.fixed cur end w w' h s = word-SpacedTo cur end w w w' h refl s

  walk_loop-SpacedTo :
      (ts : List ArgumentType) (cur end : ℕ) (w w' : SignatureWalk)
      → walk_loop e payload ts cur w ≡ ok end w'
      → SpacedTo (length payload) cur 0 w.object_offsets
      → SpacedTo (length payload) end 0 w'.object_offsets
  unfolding walk_loop
  walk_loop-SpacedTo [] cur end w w' h s =
      SpacedTo-moved (length payload) cur end w w' (ap end_of h) (offsets h) s
  walk_loop-SpacedTo (t ∷ ts) cur end w w' h s =
      elim (Walked-cases (walk_argument e payload t cur w)) [
        | inl (mid, w1, first) ↦
            walk_loop-SpacedTo ts mid end w1 w' (rw (first, walk_loop) at h)
              (walk_argument-SpacedTo t cur mid w w1 first s)
        | inr (x, failed) ↦ absurd (ground arith)
      ]

  -- The object arguments that a walk finds are words in the payload, in order, and do not overlap.
  pub walk_signature-Spaced :
      (signature : List ArgumentType) (end : ℕ) (w : SignatureWalk)
      → walk_signature e payload signature ≡ ok end w
      → Spaced (length payload) 0 w.object_offsets
  unfolding walk_signature
  walk_signature-Spaced signature end w h =
      SpacedTo-Spaced (length payload) end 0 w.object_offsets
        (walk_loop-SpacedTo signature 0 end empty_walk w h (omega arith))
