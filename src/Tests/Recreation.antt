-- ===== src/Tests/Recreation.antt =====
-- src/recreation.rs, at concrete inputs.
use wl_resprox.Prelude.{ℕ, ◌≡◌, refl, true, false, List, [], ◌∷◌, Option, some, none}
use wl_resprox.Recreation.Graph.{
  RecreationGraph, global, xdg_toplevel, shm_pool, shm_buffer, record_recipe, recipe_for, remove,
  update_shm_pool_size, update_toplevel_title, update_toplevel_app_id, update_viewport_destination,
}
use wl_resprox.Recreation.Laws.{edited, recipe_for_lem, recipe_for-update}
use wl_resprox.Recreation.Order.{InOrder, parents, ids_after, record_recipe-InOrder, update-InOrder}
use wl_resprox.Tests.Fixtures.{Face, shm}

-- A `wl_shm`, 3, and a pool of it, 4.
abbrev graph : RecreationGraph Face
graph = record { recipes = (3, global shm 1) ∷ (4, shm_pool 3 11 4096) ∷ [] }

recipe_for_lem_example :
    (recipe_for (record_recipe graph 5 (shm_buffer 4 0 8 8 32 1)) 4 ≡ some (shm_pool 3 11 4096))
    × (recipe_for (remove graph 5) 4 ≡ some (shm_pool 3 11 4096))
unfolding recipe_for
recipe_for_lem_example = recipe_for_lem graph 5 4 (shm_buffer 4 0 8 8 32 1)

-- A toplevel, 9, with a title.
abbrev shown : RecreationGraph Face
shown = record { recipes = (9, xdg_toplevel 8 (some (97 ∷ [])) none) ∷ [] }

recipe_for-update_example :
    (recipe_for (update_shm_pool_size shown 9 8192) 9 ≡ some (xdg_toplevel 8 (some (97 ∷ [])) none))
    × (recipe_for (update_toplevel_title shown 9 (98 ∷ [])) 9
        ≡ some (xdg_toplevel 8 (some (98 ∷ [])) none))
    × (recipe_for (update_toplevel_app_id shown 9 (98 ∷ [])) 9
        ≡ some (xdg_toplevel 8 (some (97 ∷ [])) (some (98 ∷ []))))
    × (recipe_for (update_viewport_destination shown 9 1 1) 9
        ≡ some (xdg_toplevel 8 (some (97 ∷ [])) none))
unfolding recipe_for edited
recipe_for-update_example = recipe_for-update shown 9 9 8192 1 1 (98 ∷ [])

record_recipe-InOrder_example : InOrder [] (record_recipe graph 5 (shm_buffer 4 0 8 8 32 1)).recipes
unfolding parents wl_resprox.Prelude.Map.contains ids_after
record_recipe-InOrder_example =
    record_recipe-InOrder graph 5 (shm_buffer 4 0 8 8 32 1) (tt, ((refl, tt), tt)) (refl, tt)

update-InOrder_example :
    InOrder [] (update_shm_pool_size graph 4 8192).recipes
    × InOrder [] (update_toplevel_title graph 4 []).recipes
    × InOrder [] (update_toplevel_app_id graph 4 []).recipes
    × InOrder [] (update_viewport_destination graph 4 1 1).recipes
unfolding parents wl_resprox.Prelude.Map.contains
update-InOrder_example = update-InOrder graph 4 8192 1 1 [] (tt, ((refl, tt), tt))
