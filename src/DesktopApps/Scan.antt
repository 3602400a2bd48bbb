-- ===== src/DesktopApps/Scan.antt =====
-- src/desktop_apps.rs: what the index that `build_from_dirs` builds answers.
use wl_resprox.Prelude.{
  ◌≡◌, refl, sym, ap, ◌∙◌, Bool, true, false, ◌||◌, List, [], ◌∷◌, ◌++◌, Option, none, some,
  if◌then◌else◌, Option-cases, Bool-cases, inl, inr, arith,
}
use wl_resprox.Interfaces.{bytes_eq}
use wl_resprox.Relay.Session.{DesktopAppIndex}
use wl_resprox.Relay.Splice.{cache_get}
use wl_resprox.Relay.Observe.{any_eq, has_id, resolve_by_binary}
use wl_resprox.Clipboard.{bytes_eq-eq}
use wl_resprox.DesktopApps.Exec.{Text}
use wl_resprox.DesktopApps.Index.{
  Entry, desktop_id, entry_binary, insert_id, or_insert, note_binary, add_entry, add_entries,
  add_dirs, build_from_dirs,
}

-- All entries, in the order of the scan.
unfoldable pub all_entries : List (Option (List Entry)) → List Entry
all_entries [] = []
all_entries (none ∷ rest) = all_entries rest
all_entries (some entries ∷ rest) = entries ++ all_entries rest

-- Whether an entry is a desktop file of this id.
unfoldable pub is_named : Text → Option Text → Bool
unfolding bytes_eq
is_named id none = false
is_named id (some other) = bytes_eq other id

unfoldable pub any_named : Text → List Entry → Bool
unfolding is_named desktop_id
any_named id [] = false
any_named id (entry ∷ rest) = is_named id (desktop_id entry) || any_named id rest

-- The id of an entry, if it is a desktop file that runs this binary.
unfoldable pub runs : Text → Option Text → Option Text → Option Text
unfolding bytes_eq
runs binary none other = none
runs binary (some id) none = none
runs binary (some id) (some other) = if bytes_eq other binary then some id else none

unfoldable pub or_else : Option Text → Option Text → Option Text
or_else none b = b
or_else (some a) b = some a

-- The id of the first desktop file that runs this binary.
unfoldable pub first_running : Text → List Entry → Option Text
unfolding or_else runs desktop_id entry_binary
first_running binary [] = none
first_running binary (entry ∷ rest) =
    or_else (runs binary (desktop_id entry) (entry_binary entry)) (first_running binary rest)

or_else_assoc : (a b c : Option Text) → or_else (or_else a b) c ≡ or_else a (or_else b c)
unfolding or_else
or_else_assoc none b c = refl
or_else_assoc (some a) b c = refl

or_else-none : (a : Option Text) → or_else a none ≡ a
unfolding or_else
or_else-none none = refl
or_else-none (some a) = refl

cache_get-append :
    (key k v : Text) (m : List (Text × Text))
    → cache_get key (m ++ (k, v) ∷ [])
      ≡ or_else (cache_get key m) (if bytes_eq k key then some v else none)
unfolding cache_get or_else
cache_get-append key k v [] = refl
cache_get-append key k v ((k', v') ∷ m) = elim (Bool-cases (bytes_eq k' key)) [
  | inl hit ↦ rw (hit, cache_get) refl
  | inr miss ↦ rw (miss, cache_get) (cache_get-append key k v m)
]

any_eq-append : (a b : Text) (l : List Text) → any_eq a (l ++ b ∷ []) ≡ (any_eq a l || bytes_eq b a)
unfolding any_eq
any_eq-append a b [] = ground arith
any_eq-append a b (c ∷ l) = ground (arith, any_eq-append a b l)

any_eq-insert_id :
    (a id : Text) (ids : List Text) → any_eq a (insert_id id ids) ≡ (any_eq a ids || bytes_eq id a)
unfolding insert_id
any_eq-insert_id a id ids = elim (Bool-cases (any_eq id ids)) [
  | inr new ↦ rw (new, insert_id) (any_eq-append a id ids)
  | inl known ↦ elim (Bool-cases (bytes_eq id a)) [
    | inl same ↦
        let there : any_eq a ids ≡ true =
          ap (λ x. any_eq x ids) (sym (bytes_eq-eq id a same)) ∙ known in
        rw (known, insert_id) (ground arith)
    | inr other ↦ rw (known, insert_id) (ground arith)
  ]
]

cache_get-note_binary :
    (key id : Text) (binary : Option Text) (m : List (Text × Text))
    → cache_get key (note_binary binary id m)
      ≡ or_else (cache_get key m) (runs key (some id) binary)
unfolding note_binary or_insert runs or_else
cache_get-note_binary key id none m = sym (or_else-none (cache_get key m))
cache_get-note_binary key id (some binary) m = elim (Option-cases (cache_get binary m)) [
  | inl new ↦ rw (new, or_insert) (cache_get-append key binary id m)
  | inr (old, known) ↦ elim (Bool-cases (bytes_eq binary key)) [
    | inl same ↦
        let there : cache_get key m ≡ some old =
          ap (λ x. cache_get x m) (sym (bytes_eq-eq binary key same)) ∙ known in
        rw (known, or_insert) (ground arith)
    | inr other ↦ rw (known, or_insert, other) (sym (or_else-none (cache_get key m)))
  ]
]

-- What an index answers: for each name whether it has it, and for each binary whose id.
abbrev Answers : DesktopAppIndex → DesktopAppIndex → List Entry → Type 0
Answers before after entries =
    ((id : Text) → has_id after id ≡ (has_id before id || any_named id entries))
    × ((binary : Text)
        → resolve_by_binary after binary
          ≡ or_else (resolve_by_binary before binary) (first_running binary entries))

add_entry-Answers :
    (index : DesktopAppIndex) (entry : Entry) → Answers index (add_entry index entry) (entry ∷ [])
unfolding has_id resolve_by_binary add_entry any_named first_running is_named runs
add_entry-Answers index entry = elim (Option-cases (desktop_id entry)) [
  | inl other ↦ (
    λ id. rw (other, add_entry) (ground arith),
    λ binary. rw (other, add_entry, runs) (sym (or_else-none (cache_get binary index.by_binary))),
  )
  | inr (id, named) ↦ (
    λ wanted. rw (named, add_entry) (ground (arith, any_eq-insert_id wanted id index.ids)),
    λ binary.
        rw (named, add_entry)
          (cache_get-note_binary binary id (entry_binary entry) index.by_binary
            ∙ ap (or_else (cache_get binary index.by_binary)) (sym (or_else-none _))),
  )
]

any_named-append :
    (id : Text) (xs ys : List Entry)
    → any_named id (xs ++ ys) ≡ (any_named id xs || any_named id ys)
unfolding any_named
any_named-append id [] ys = refl
any_named-append id (x ∷ xs) ys = ground (arith, any_named-append id xs ys)

first_running-append :
    (binary : Text) (xs ys : List Entry)
    → first_running binary (xs ++ ys) ≡ or_else (first_running binary xs) (first_running binary ys)
unfolding first_running or_else
first_running-append binary [] ys = refl
first_running-append binary (x ∷ xs) ys =
    ap (or_else (runs binary (desktop_id x) (entry_binary x))) (first_running-append binary xs ys)
    ∙ sym (
        or_else_assoc (runs binary (desktop_id x) (entry_binary x)) (first_running binary xs)
          (first_running binary ys))

Answers-trans :
    (a b c : DesktopAppIndex) (xs ys : List Entry)
    → Answers a b xs
    → Answers b c ys
    → Answers a c (xs ++ ys)
Answers-trans a b c xs ys (ids, runs') (ids', runs'') = (
  λ id. ground (arith, ids id, ids' id, any_named-append id xs ys),
  λ binary.
      runs'' binary
      ∙ ap (λ o. or_else o (first_running binary ys)) (runs' binary)
      ∙ or_else_assoc (resolve_by_binary a binary) (first_running binary xs)
          (first_running binary ys)
      ∙ ap (or_else (resolve_by_binary a binary)) (sym (first_running-append binary xs ys)),
)

Answers-refl : (index : DesktopAppIndex) → Answers index index []
unfolding any_named first_running
Answers-refl index =
    (λ id. ground arith, λ binary. sym (or_else-none (resolve_by_binary index binary)))

add_entries-Answers :
    (index : DesktopAppIndex) (entries : List Entry)
    → Answers index (add_entries index entries) entries
unfolding add_entries
add_entries-Answers index [] = Answers-refl index
add_entries-Answers index (entry ∷ rest) =
    Answers-trans index (add_entry index entry) (add_entries (add_entry index entry) rest)
      (entry ∷ []) rest (add_entry-Answers index entry)
      (add_entries-Answers (add_entry index entry) rest)

add_dirs-Answers :
    (index : DesktopAppIndex) (dirs : List (Option (List Entry)))
    → Answers index (add_dirs index dirs) (all_entries dirs)
unfolding add_dirs all_entries
add_dirs-Answers index [] = Answers-refl index
add_dirs-Answers index (none ∷ rest) = add_dirs-Answers index rest
add_dirs-Answers index (some entries ∷ rest) =
    Answers-trans index (add_entries index entries) (add_dirs (add_entries index entries) rest)
      entries (all_entries rest) (add_entries-Answers index entries)
      (add_dirs-Answers (add_entries index entries) rest)

-- The index that is built of directories has the id of each desktop file in those that can be read,
-- and no other, and gives for a binary the id of the first of these files, in the order of the scan,
-- that runs it.
pub build_from_dirs-first :
    (dirs : List (Option (List Entry))) (id binary : Text)
    → (has_id (build_from_dirs dirs) id ≡ any_named id (all_entries dirs))
      × (resolve_by_binary (build_from_dirs dirs) binary ≡ first_running binary (all_entries dirs))
unfolding build_from_dirs has_id resolve_by_binary or_else
build_from_dirs-first dirs id binary =
    let (ids, runs') = add_dirs-Answers (record { ids = []; by_binary = [] }) dirs in
    (ids id, runs' binary)
