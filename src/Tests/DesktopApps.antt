-- ===== src/Tests/DesktopApps.antt =====
-- src/desktop_apps.rs, at concrete inputs.
use wl_resprox.Prelude.{◌≡◌, refl, List, [], ◌∷◌, ◌++◌, Option, none, some}
use wl_resprox.Interfaces.{codes}
use wl_resprox.Relay.Observe.{has_id, resolve_by_binary}
use wl_resprox.DesktopApps.Exec.{Text, lines, main_entry_exec}
use wl_resprox.DesktopApps.Groups.{grouped, first_exec, main_entry_exec-grouped}
use wl_resprox.DesktopApps.Index.{Entry, build_from_dirs}
use wl_resprox.DesktopApps.Scan.{all_entries, any_named, first_running, build_from_dirs-first}

-- An action's line before the entry's own.
abbrev ed_file : Text
ed_file =
    codes "[Desktop Action new]"
    ++ 10 ∷ codes "Exec=other"
    ++ 10 ∷ codes " [Desktop Entry]"
    ++ 10 ∷ codes "Exec=/usr/bin/ed %f"

abbrev ed_dirs : List (Option (List Entry))
ed_dirs =
    none
    ∷ some (record { name = some (codes "ed.desktop"); content = some ed_file } ∷ [])
    ∷ some (record { name = some (codes "late.desktop"); content = some ed_file } ∷ [])
    ∷ []

main_entry_exec_test : main_entry_exec ed_file ≡ some (codes "/usr/bin/ed %f")
unfolding main_entry_exec
main_entry_exec_test = refl

build_test : resolve_by_binary (build_from_dirs ed_dirs) (codes "ed") ≡ some (codes "ed")
unfolding resolve_by_binary build_from_dirs
build_test = refl

main_entry_exec-grouped_example :
    main_entry_exec ed_file ≡ first_exec (grouped none (lines ed_file))
main_entry_exec-grouped_example = main_entry_exec-grouped ed_file

build_from_dirs-first_example :
    (has_id (build_from_dirs ed_dirs) (codes "late")
      ≡ any_named (codes "late") (all_entries ed_dirs))
    × (resolve_by_binary (build_from_dirs ed_dirs) (codes "ed")
        ≡ first_running (codes "ed") (all_entries ed_dirs))
build_from_dirs-first_example = build_from_dirs-first ed_dirs (codes "late") (codes "ed")
