-- ===== src/DesktopApps/Groups.antt =====
-- src/desktop_apps.rs: the groups of a desktop file, and the line that `main_entry_exec` takes.
use wl_resprox.Prelude.{
  ℕ, ◌≡◌, refl, sym, ◌∙◌, Bool, true, false, ◌&&◌, List, [], ◌∷◌, Option, none, some, if◌then◌else◌,
  ◌==◌, take, drop, length, Option-cases, inl, inr, arith,
}
use wl_resprox.Interfaces.{codes, bytes_eq}
use wl_resprox.DesktopApps.Exec.{
  Text, trim, lines, strip_prefix, strip_last, group_of, is_main, exec_from, main_entry_exec,
}

-- The name between brackets, of a line that begins with `[` and ends with `]`.
unfoldable pub ends_in : ℕ → Text → Bool
ends_in x [] = false
ends_in x (c ∷ []) = c == x
ends_in x (c ∷ d ∷ t) = ends_in x (d ∷ t)

unfoldable pub all_but_last : Text → Text
all_but_last [] = []
all_but_last (c ∷ []) = []
all_but_last (c ∷ d ∷ t) = c ∷ all_but_last (d ∷ t)

unfoldable pub header_name : Text → Option Text
unfolding ends_in all_but_last
header_name [] = none
header_name (c ∷ t) = if c == 91 && ends_in 93 t then some (all_but_last t) else none

-- Each line that is no header, trimmed, with the name of the last header before it.
unfoldable pub grouped : Option Text → List Text → List (Option Text × Text)
unfolding trim header_name
grouped group [] = []
grouped group (raw ∷ rest) = elim (header_name (trim raw)) [
  | some next ↦ grouped (some next) rest
  | none ↦ (group, trim raw) ∷ grouped group rest
]

-- The value of a line that begins with `Exec=` in the group `Desktop Entry`.
unfoldable pub exec_line : Option Text × Text → Option Text
unfolding bytes_eq
exec_line (none, line) = none
exec_line (some group, line) =
    if bytes_eq group (codes "Desktop Entry") && bytes_eq (take 5 line) (codes "Exec=")
    then some (drop 5 line)
    else none

unfoldable pub first_exec : List (Option Text × Text) → Option Text
unfolding exec_line
first_exec [] = none
first_exec (line ∷ rest) = elim (exec_line line) [
  | some value ↦ some value
  | none ↦ first_exec rest
]

strip_last_lem :
    (x : ℕ) (t : Text) → strip_last x t ≡ (if ends_in x t then some (all_but_last t) else none)
unfolding strip_last ends_in all_but_last
strip_last_lem x [] = refl
strip_last_lem x (c ∷ []) = refl
strip_last_lem x (c ∷ d ∷ t) = ground (arith, strip_last_lem x (d ∷ t))

group_of_lem : (line : Text) → group_of line ≡ header_name line
unfolding group_of header_name strip_prefix
group_of_lem [] = refl
group_of_lem (c ∷ t) = ground (arith, strip_last_lem 93 t)

strip_prefix_lem :
    (p t : Text)
    → strip_prefix p t ≡ (if bytes_eq (take (length p) t) p then some (drop (length p) t) else none)
unfolding strip_prefix bytes_eq
strip_prefix_lem [] t = refl
strip_prefix_lem (x ∷ p) [] = refl
strip_prefix_lem (x ∷ p) (c ∷ t) = ground (arith, strip_prefix_lem p t)

both :
    (a b : Bool) (x : Option Text)
    → (if a && b then x else none) ≡ (if a then if b then x else none else none)
both false b x = refl
both true b x = refl

exec_line_lem :
    (group line : Text)
    → exec_line (some group, line)
      ≡ (if is_main group then strip_prefix (codes "Exec=") line else none)
unfolding exec_line is_main
exec_line_lem group line = rw (strip_prefix_lem (codes "Exec=") line) (
    both (bytes_eq group (codes "Desktop Entry")) (bytes_eq (take 5 line) (codes "Exec="))
      (some (drop 5 line)))

abbrev in_main : Option Text → Bool
in_main none = false
in_main (some group) = is_main group

abbrev taken : Option Text → Text → Option Text
taken group line = if in_main group then strip_prefix (codes "Exec=") line else none

taken_lem : (group : Option Text) (line : Text) → exec_line (group, line) ≡ taken group line
unfolding exec_line
taken_lem none line = refl
taken_lem (some group) line = exec_line_lem group line

exec_from-grouped :
    (group : Option Text) (ls : List Text)
    → exec_from (in_main group) ls ≡ first_exec (grouped group ls)
unfolding exec_from first_exec grouped
exec_from-grouped group [] = refl
exec_from-grouped group (raw ∷ rest) = elim (Option-cases (group_of (trim raw))) [
  | inr (next, header) ↦
      let header' = sym (group_of_lem (trim raw)) ∙ header in
      rw (header, header', exec_from, grouped) (exec_from-grouped (some next) rest)
  | inl plain ↦
      let plain' = sym (group_of_lem (trim raw)) ∙ plain in
      elim (Option-cases (taken group (trim raw))) [
        | inl missing ↦
            let missing' = taken_lem group (trim raw) ∙ missing in
            rw (plain, plain', missing, missing', exec_from, grouped, first_exec)
              (exec_from-grouped group rest)
        | inr (value, found) ↦
            let found' = taken_lem group (trim raw) ∙ found in
            rw (plain, plain', found, found', exec_from, grouped, first_exec) refl
      ]
]

-- main_entry_exec gives what stands behind Exec= in the first line that begins so, among the trimmed
-- lines of a group called Desktop Entry; a line stands in the group that the last header before it
-- names, and a header is a line that begins with [ and ends with ].
pub main_entry_exec-grouped :
    (content : Text) → main_entry_exec content ≡ first_exec (grouped none (lines content))
unfolding main_entry_exec
main_entry_exec-grouped content = exec_from-grouped none (lines content)
