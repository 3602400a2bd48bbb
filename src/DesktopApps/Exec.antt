-- ===== src/DesktopApps/Exec.antt =====
-- src/desktop_apps.rs: `main_entry_exec` and `exec_binary_name`, with what they use of the standard
-- library's texts and paths.
use wl_resprox.Prelude.{
  ℕ, Bool, false, ◌&&◌, ◌||◌, List, [], ◌∷◌, Option, none, some, if◌then◌else◌, ◌==◌, leb,
}
use wl_resprox.Interfaces.{codes, bytes_eq}
use wl_resprox.Relay.Capture.{◌>>=◌}

abbrev pub Text : Type 0
Text = List ℕ

-- `char::is_whitespace`.
unfoldable pub is_whitespace : ℕ → Bool
is_whitespace c =
    leb 9 c && leb c 13
    || c == 32
    || c == 133
    || c == 160
    || c == 5760
    || leb 8192 c && leb c 8202
    || c == 8232
    || c == 8233
    || c == 8239
    || c == 8287
    || c == 12288

-- `str::trim` of the standard library, from both sides.
unfoldable pub trim_start : Text → Text
unfolding is_whitespace
trim_start [] = []
trim_start (c ∷ t) = if is_whitespace c then trim_start t else c ∷ t

unfoldable pub keep_unless_blank : ℕ → Text → Text
unfolding is_whitespace
keep_unless_blank c [] = if is_whitespace c then [] else c ∷ []
keep_unless_blank c (d ∷ t) = c ∷ d ∷ t

unfoldable pub trim_end : Text → Text
unfolding keep_unless_blank
trim_end [] = []
trim_end (c ∷ t) = keep_unless_blank c (trim_end t)

unfoldable pub trim : Text → Text
unfolding trim_start trim_end
trim t = trim_end (trim_start t)

unfoldable pub push_char : ℕ → List Text → List Text
push_char c [] = (c ∷ []) ∷ []
push_char c (line ∷ rest) = (c ∷ line) ∷ rest

-- `lines`. The carriage return that it takes off a line's end is white space, which `trim` takes off.
unfoldable pub lines : Text → List Text
unfolding push_char
lines [] = []
lines (c ∷ t) = let rest = lines t in if c == 10 then [] ∷ rest else push_char c rest

unfoldable pub strip_prefix : Text → Text → Option Text
strip_prefix [] t = some t
strip_prefix (p ∷ ps) [] = none
strip_prefix (p ∷ ps) (c ∷ t) = if p == c then strip_prefix ps t else none

unfoldable pub strip_last : ℕ → Text → Option Text
strip_last x [] = none
strip_last x (c ∷ []) = if c == x then some [] else none
strip_last x (c ∷ d ∷ t) = do front ← strip_last x (d ∷ t); some (c ∷ front)

-- A group header's name, between brackets.
unfoldable pub group_of : Text → Option Text
unfolding strip_prefix strip_last
group_of line = do inner ← strip_prefix (codes "[") line; strip_last 93 inner

unfoldable pub is_main : Text → Bool
unfolding bytes_eq
is_main group = bytes_eq group (codes "Desktop Entry")

-- The loop over the lines, with `in_main_entry`.
unfoldable pub exec_from : Bool → List Text → Option Text
unfolding trim group_of is_main strip_prefix
exec_from in_main_entry [] = none
exec_from in_main_entry (raw ∷ rest) = elim (group_of (trim raw)) [
  | some group ↦ exec_from (is_main group) rest
  | none ↦ elim (if in_main_entry then strip_prefix (codes "Exec=") (trim raw) else none) [
    | some value ↦ some value
    | none ↦ exec_from in_main_entry rest
  ]
]

unfoldable pub main_entry_exec : Text → Option Text
unfolding lines exec_from
main_entry_exec content = exec_from false (lines content)

unfoldable pub take_word : Text → Text
unfolding is_whitespace
take_word [] = []
take_word (c ∷ t) = if is_whitespace c then [] else c ∷ take_word t

-- `split_whitespace().next()`.
unfoldable pub first_word : Text → Option Text
unfolding trim_start take_word
first_word t = elim (take_word (trim_start t)) [ [] ↦ none | c ∷ word ↦ some (c ∷ word) ]

unfoldable pub push_name : ℕ → List Text → List Text
push_name c [] = (c ∷ []) ∷ []
push_name c (part ∷ rest) = (c ∷ part) ∷ rest

-- The parts between slashes, empty ones included.
unfoldable pub parts : Text → List Text
unfolding push_name
parts [] = [] ∷ []
parts (c ∷ t) = let rest = parts t in if c == 47 then [] ∷ rest else push_name c rest

-- The last part that is neither empty nor a dot: `Path::components` leaves those out.
unfoldable pub last_part : List Text → Option Text
unfolding bytes_eq
last_part [] = none
last_part (part ∷ rest) = elim (last_part rest) [
  | some later ↦ some later
  | none ↦ if bytes_eq part [] || bytes_eq part (codes ".") then none else some part
]

-- `Path::file_name`: none for a path that ends in two dots.
unfoldable pub file_name : Text → Option Text
unfolding parts last_part bytes_eq
file_name path = do
  part ← last_part (parts path)
  if bytes_eq part (codes "..") then none else some part

unfoldable pub exec_binary_name : Text → Option Text
unfolding first_word file_name
exec_binary_name exec = do first ← first_word exec; file_name first
