-- ===== src/Clipboard.antt =====
-- src/clipboard.rs: the copy that a clipboard transfer leaves in the cache.
use mathlib.Core.List.{append_assoc, append-nil}
use wl_resprox.Prelude.{
  ℕ, suc, ◌+◌, ◌*◌, ◌≤◌, ◌≡◌, refl, sym, ap, ◌∙◌, Bool, true, false, not, ◌&&◌, List, [], ◌∷◌, ◌++◌,
  Option, none, some, if◌then◌else◌, ltb, ==_self, arith, length, length-append, Bool-cases, inl,
  inr,
}
use wl_resprox.Wire.Words.{Bytes}
use wl_resprox.Interfaces.{bytes_eq}
use wl_resprox.Relay.Splice.{cache_get}

abbrev pub max_cached_bytes : ℕ
max_cached_bytes = 5 * 1024 * 1024

-- One turn of the loop of `pump`: bytes that were read and written on, a read that fails, or a write
-- that fails, with the bytes of its chunk that it had written before. No bytes, and the end of the list, are the end of the transfer.
pub data Turn : Type 0 where
  copied : Bytes → Turn
  read_error : Turn
  write_error : Bytes → Turn

-- `none` once the transfer has grown too long.
unfoldable pub collect : Option Bytes → Bytes → Option Bytes
collect none chunk = none
collect (some so_far) chunk =
    if ltb max_cached_bytes (length so_far + length chunk) then none else some (so_far ++ chunk)

-- The loop: the bytes written on, and what was collected; no collection if it ends in an error.
unfoldable pub copy_loop : Option Bytes → List Turn → Bytes × Option Bytes
unfolding collect
copy_loop collected [] = ([], collected)
copy_loop collected (copied [] ∷ turns) = ([], collected)
copy_loop collected (copied (b ∷ bs) ∷ turns) =
    let (written, result) = copy_loop (collect collected (b ∷ bs)) turns in
    (b ∷ bs ++ written, result)
copy_loop collected (read_error ∷ turns) = ([], none)
copy_loop collected (write_error part ∷ turns) = (part, none)

-- `HashMap::insert`.
unfoldable pub store : Bytes → Bytes → List (Bytes × Bytes) → List (Bytes × Bytes)
unfolding bytes_eq
store mime content [] = (mime, content) ∷ []
store mime content ((m, c) ∷ rest) =
    if bytes_eq m mime then (m, content) ∷ rest else (m, c) ∷ store mime content rest

unfoldable pub store_collected : Bytes → Option Bytes → List (Bytes × Bytes) → List (Bytes × Bytes)
unfolding store
store_collected mime none cache = cache
store_collected mime (some []) cache = cache
store_collected mime (some (b ∷ bs)) cache = store mime (b ∷ bs) cache

-- The bytes written on to the compositor, and the cache.
unfoldable pub pump : Bytes → List Turn → List (Bytes × Bytes) → Bytes × List (Bytes × Bytes)
unfolding copy_loop store_collected
pump mime turns cache =
    let (written, collected) = copy_loop (some []) turns in
    (written, store_collected mime collected cache)

-- A transfer without an error, in chunks that are not empty.
unfoldable pub joined : List (ℕ × Bytes) → Bytes
joined [] = []
joined ((b, bs) ∷ chunks) = b ∷ bs ++ joined chunks

unfoldable pub turns_of : List (ℕ × Bytes) → List Turn → List Turn
turns_of [] after = after
turns_of ((b, bs) ∷ chunks) after = copied (b ∷ bs) ∷ turns_of chunks after

collect-none :
    (chunks : List (ℕ × Bytes)) → copy_loop none (turns_of chunks []) ≡ (joined chunks, none)
unfolding copy_loop joined turns_of collect
collect-none [] = refl
collect-none ((b, bs) ∷ chunks) =
    ap (λ (r : Bytes × Option Bytes). (b ∷ bs ++ r.0, r.1)) (collect-none chunks)

collect-joined :
    (so_far : Bytes) (chunks : List (ℕ × Bytes))
    → length so_far ≤ max_cached_bytes
    → copy_loop (some so_far) (turns_of chunks []) ≡ (
      joined chunks,
      if ltb max_cached_bytes (length so_far + length (joined chunks))
          then none
          else some (so_far ++ joined chunks),
    )
unfolding copy_loop joined turns_of collect
collect-joined so_far [] h = rw append-nil (ground arith)
collect-joined so_far ((b, bs) ∷ chunks) h =
    let whole = length-append {0} bs (joined chunks) in
    elim (Bool-cases (ltb max_cached_bytes (length so_far + suc (length bs)))) [
      | inl over ↦ ground (arith, collect-none chunks, whole)
      | inr fits ↦
          let longer = length-append {0} so_far (b ∷ bs) in
          ground (
            arith,
            collect-joined (so_far ++ b ∷ bs) chunks (ground (arith, longer)),
            longer,
            whole,
            append_assoc so_far (b ∷ bs) (joined chunks),
          )
    ]

collect-all :
    (chunks : List (ℕ × Bytes))
    → copy_loop (some []) (turns_of chunks []) ≡ (
      joined chunks,
      if ltb max_cached_bytes (length (joined chunks)) then none else some (joined chunks),
    )
collect-all chunks =
    collect-joined [] chunks (omega arith)
    ∙ ap (λ n. (joined chunks, if ltb max_cached_bytes n then none else some (joined chunks)))
        {x = 0 + length (joined chunks)} {y = length (joined chunks)} (omega arith)

-- A transfer that fails after some chunks.
failed-copy :
    (collected : Option Bytes) (chunks : List (ℕ × Bytes)) (part : Bytes) (later : List Turn)
    → (copy_loop collected (turns_of chunks (read_error ∷ later)) ≡ (joined chunks, none))
      × (copy_loop collected (turns_of chunks (write_error part ∷ later))
          ≡ (joined chunks ++ part, none))
unfolding copy_loop joined turns_of
failed-copy collected [] part later = (refl, refl)
failed-copy collected ((b, bs) ∷ chunks) part later =
    let (r, w) = failed-copy (collect collected (b ∷ bs)) chunks part later in
    let all : b ∷ bs ++ (joined chunks ++ part) ≡ (b ∷ bs ++ joined chunks) ++ part =
      sym (append_assoc (b ∷ bs) (joined chunks) part) in
    (
      ap (λ (p : Bytes × Option Bytes). (b ∷ bs ++ p.0, p.1)) r,
      ap (λ (p : Bytes × Option Bytes). (b ∷ bs ++ p.0, p.1)) w ∙ ap (λ (v : Bytes). (v, none)) all,
    )

pub bytes_eq-eq : (a b : Bytes) → bytes_eq a b ≡ true → a ≡ b
unfolding bytes_eq
bytes_eq-eq [] [] h = refl
bytes_eq-eq (x ∷ a) (y ∷ b) h = ground (arith, bytes_eq-eq a b)
bytes_eq-eq _ _ h = cc

bytes_eq_self : (a : Bytes) → bytes_eq a a ≡ true
unfolding bytes_eq
bytes_eq_self [] = refl
bytes_eq_self (x ∷ a) = ground (arith, ==_self x, bytes_eq_self a)

-- What is cached for a type after a store.
cache_get-store :
    (mime content other : Bytes) (cache : List (Bytes × Bytes))
    → cache_get other (store mime content cache)
      ≡ (if bytes_eq mime other then some content else cache_get other cache)
unfolding cache_get store
cache_get-store mime content other [] = refl
cache_get-store mime content other ((m, c) ∷ cache) = elim (Bool-cases (bytes_eq m mime)) [
  | inl same ↦ ground (arith, bytes_eq-eq m mime same)
  | inr differ ↦ elim (Bool-cases (bytes_eq m other)) [
    | inl found ↦ elim (Bool-cases (bytes_eq mime other)) [
      | inl equal ↦
          let both = bytes_eq-eq m other found ∙ sym (bytes_eq-eq mime other equal) in
          absurd (ground (arith, ap (bytes_eq m) both, bytes_eq_self m))
      | inr apart ↦ ground arith
    ]
    | inr past ↦ ground (arith, cache_get-store mime content other cache)
  ]
]

abbrev pub no_bytes : Bytes → Bool
no_bytes [] = true
no_bytes (b ∷ bs) = false

cache_get-store_collected :
    (mime content other : Bytes) (cache : List (Bytes × Bytes))
    → cache_get other (store_collected mime (some content) cache) ≡ (
        if bytes_eq mime other && not (no_bytes content)
        then some content
        else cache_get other cache)
unfolding store_collected
cache_get-store_collected mime [] other cache = ground arith
cache_get-store_collected mime (b ∷ bs) other cache =
    cache_get-store mime (b ∷ bs) other cache ∙ ground arith

-- A transfer without an error reaches the compositor whole. What is cached for its type is then
-- the whole of it, if it has bytes and no more than the limit; what is cached for any other type,
-- and for its own type otherwise, is as before.
pub pump-turns_of :
    (mime other : Bytes) (chunks : List (ℕ × Bytes)) (cache : List (Bytes × Bytes))
    → let (written, cache') = pump mime (turns_of chunks []) cache in
      let whole = joined chunks in
      (written ≡ whole)
      × (cache_get other cache' ≡ (
          if ltb max_cached_bytes (length whole)
          then cache_get other cache
          else if bytes_eq mime other && not (no_bytes whole)
          then some whole
          else cache_get other cache))
unfolding pump store_collected
pump-turns_of mime other chunks cache = rw (collect-all chunks) (
  refl,
  elim (ltb max_cached_bytes (length (joined chunks)))
      as (λ b.
        cache_get other (store_collected mime (if b then none else some (joined chunks)) cache) ≡ (
          if b
          then cache_get other cache
          else if bytes_eq mime other && not (no_bytes (joined chunks))
          then some (joined chunks)
          else cache_get other cache)) [
            | true ↦ refl
            | false ↦ cache_get-store_collected mime (joined chunks) other cache
          ],
)

-- A transfer that a failed read or a failed write ends is not cached. What was read before has reached
-- the compositor, and of the chunk whose write fails as much as had been written.
pub pump_failed :
    (mime part : Bytes) (chunks : List (ℕ × Bytes)) (later : List Turn)
    (cache : List (Bytes × Bytes))
    → (pump mime (turns_of chunks (read_error ∷ later)) cache ≡ (joined chunks, cache))
      × (pump mime (turns_of chunks (write_error part ∷ later)) cache
          ≡ (joined chunks ++ part, cache))
unfolding pump store_collected
pump_failed mime part chunks later cache =
    let (r, w) = failed-copy (some []) chunks part later in (rw (r, pump) refl, rw (w, pump) refl)
