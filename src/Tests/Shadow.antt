-- ===== src/Tests/Shadow.antt =====
-- src/shadow_table.rs, at concrete inputs.
use wl_resprox.Prelude.{
  ℕ, ◌≡◌, refl, ◌↔◌, true, false, List, [], ◌∷◌, some, none, if◌then◌else◌, ◌==◌, arith,
}
use wl_resprox.Shadow.BiMap.{pairing}
use wl_resprox.Shadow.Table.{
  new, host_id, guest_id, interface, map_ids, remove_guest, bump_generation, allocate_host_id,
  unallocate_host_id,
}
use wl_resprox.Shadow.Translate.{translate_iff, host_id-map_ids, host_id-remove_guest}
use wl_resprox.Shadow.Generations.{
  Call, maps, bumps, run, host_id-bump_generation, host_id-run_bump, new-Dated,
}
use wl_resprox.Shadow.Allocators.{
  allocate_many, upward, allocate_many-bump_generation, unallocate-allocate,
}
use wl_resprox.Tests.Fixtures.{Face, surface, callback, faces, table}

translate_iff_example :
    (host_id faces pairing table 5 ≡ some 2) ↔ (guest_id faces pairing table 2 ≡ some 5)
translate_iff_example = translate_iff faces pairing table 5 2 (omega arith) (omega arith)

host_id-map_ids_example : host_id faces pairing (map_ids faces pairing table 7 2 callback) 5 ≡ none
unfolding host_id wl_resprox.Prelude.Map.get map_ids wl_resprox.Prelude.Map.insert new pairing
host_id-map_ids_example = host_id-map_ids faces pairing table 7 2 5 callback (omega arith)

host_id-remove_guest_example :
    (host_id faces pairing (remove_guest faces pairing table 5) 6 ≡ some 3)
    × (interface faces pairing (remove_guest faces pairing table 5) 6
        ≡ interface faces pairing table 6)
unfolding host_id wl_resprox.Prelude.Map.get map_ids wl_resprox.Prelude.Map.insert new pairing
host_id-remove_guest_example = host_id-remove_guest faces pairing table 5 6 (omega arith)

host_id-bump_generation_example :
    host_id faces pairing (bump_generation faces pairing (new faces pairing)) 5 ≡ none
unfolding new
host_id-bump_generation_example =
    host_id-bump_generation faces pairing (new faces pairing) 5 (omega arith)
      (new-Dated faces pairing)

abbrev calls : List (Call Face)
calls = maps 5 2 surface ∷ bumps ∷ maps 6 2 callback ∷ []

host_id-run_bump_example :
    host_id faces pairing
      (bump_generation faces pairing (run faces pairing (new faces pairing) calls))
      6
    ≡ none
unfolding wl_resprox.Shadow.Generations.reconnects
host_id-run_bump_example = host_id-run_bump faces pairing calls 6 (omega arith)

allocate_many-bump_generation_example :
    allocate_many faces pairing 3 (bump_generation faces pairing table) ≡ 2 ∷ 3 ∷ 4 ∷ []
unfolding upward
allocate_many-bump_generation_example =
    allocate_many-bump_generation faces pairing 3 table (omega arith)

unallocate-allocate_example :
    unallocate_host_id faces pairing (allocate_host_id faces pairing table).1 2 ≡ table
unfolding map_ids new allocate_host_id
unallocate-allocate_example = unallocate-allocate faces pairing table 2 (omega arith)
