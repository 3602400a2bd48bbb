-- ===== src/DesktopApps/Index.antt =====
-- src/desktop_apps.rs: `DesktopAppIndex::build_from_dirs`, over what the directories hold.
use wl_resprox.Prelude.{List, [], ◌∷◌, ◌++◌, Option, none, some, if◌then◌else◌, ◌==◌}
use wl_resprox.Interfaces.{codes, bytes_eq}
use wl_resprox.Relay.Session.{DesktopAppIndex}
use wl_resprox.Relay.Splice.{cache_get}
use wl_resprox.Relay.Observe.{any_eq}
use wl_resprox.Relay.Capture.{◌>>=◌}
use wl_resprox.DesktopApps.Exec.{Text, main_entry_exec, exec_binary_name}

-- A directory entry: its name, if that is a text, and what `read_to_string` gives for it.
pub record Entry : Type 0 where
  pub name : Option Text
  pub content : Option Text

-- What stands before and behind the last dot.
unfoldable pub split_last_dot : Text → Option (Text × Text)
split_last_dot [] = none
split_last_dot (c ∷ t) = elim (split_last_dot t) [
  | some (before, after) ↦ some (c ∷ before, after)
  | none ↦ if c == 46 then some ([], t) else none
]

unfoldable pub desktop_name : Text × Text → Option Text
unfolding bytes_eq
desktop_name ([], after) = none
desktop_name (c ∷ before, after) =
    if bytes_eq after (codes "desktop") then some (c ∷ before) else none

-- The id: the stem of a name with the extension `desktop`. A name that begins with its last dot has
-- no extension.
unfoldable pub desktop_id : Entry → Option Text
unfolding split_last_dot desktop_name
desktop_id entry = do name ← entry.name; split ← split_last_dot name; desktop_name split

-- The binary that the entry's file runs.
unfoldable pub entry_binary : Entry → Option Text
unfolding main_entry_exec exec_binary_name
entry_binary entry = do
  content ← entry.content
  exec ← main_entry_exec content
  exec_binary_name exec

-- `HashSet::insert`.
unfoldable pub insert_id : Text → List Text → List Text
unfolding any_eq
insert_id id ids = if any_eq id ids then ids else ids ++ id ∷ []

-- `HashMap::entry(..).or_insert_with(..)`.
unfoldable pub or_insert : Text → Text → List (Text × Text) → List (Text × Text)
unfolding cache_get
or_insert key value m = elim (cache_get key m) [ some old ↦ m | none ↦ m ++ (key, value) ∷ [] ]

unfoldable pub note_binary : Option Text → Text → List (Text × Text) → List (Text × Text)
unfolding or_insert
note_binary none id m = m
note_binary (some binary) id m = or_insert binary id m

-- The body of the inner loop.
unfoldable pub add_entry : DesktopAppIndex → Entry → DesktopAppIndex
unfolding desktop_id entry_binary insert_id note_binary
add_entry index entry = elim (desktop_id entry) [
  | none ↦ index
  | some id ↦ record {
    ids = insert_id id index.ids;
    by_binary = note_binary (entry_binary entry) id index.by_binary;
  }
]

unfoldable pub add_entries : DesktopAppIndex → List Entry → DesktopAppIndex
unfolding add_entry
add_entries index [] = index
add_entries index (entry ∷ rest) = add_entries (add_entry index entry) rest

-- A directory that cannot be read is passed over.
unfoldable pub add_dirs : DesktopAppIndex → List (Option (List Entry)) → DesktopAppIndex
unfolding add_entries
add_dirs index [] = index
add_dirs index (none ∷ rest) = add_dirs index rest
add_dirs index (some entries ∷ rest) = add_dirs (add_entries index entries) rest

unfoldable pub build_from_dirs : List (Option (List Entry)) → DesktopAppIndex
unfolding add_dirs
build_from_dirs dirs = add_dirs (record { ids = []; by_binary = [] }) dirs
