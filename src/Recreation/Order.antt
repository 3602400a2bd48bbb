-- ===== src/Recreation/Order.antt =====
-- src/recreation.rs: recipes stand parent before child, which replay relies on.
use wl_resprox.Prelude.{
  ℕ, ◌≡◌, refl, Bool, true, ◌&&◌, List, [], ◌∷◌, ◌++◌, ◌==◌, All, Bool-cases, inl, inr,
}
use wl_resprox.Prelude.Map.{contains}
use wl_resprox.Wire.Words.{Bytes}
use wl_resprox.Recreation.Graph.{
  Recreatable, RecreationGraph, global, surface, xdg_surface, xdg_toplevel, shm_pool, shm_buffer,
  dmabuf_buffer, seat_device, viewport, fractional_scale, record_recipe, has_shape, update_last,
  is_shm_pool, is_xdg_toplevel, is_viewport, with_size, with_title, with_app_id, with_destination,
  update_shm_pool_size, update_toplevel_title, update_toplevel_app_id, update_viewport_destination,
}

abbrev pub AllIn : List ℕ → List ℕ → Type 0
AllIn seen = All (λ p. contains p seen ≡ true)

module _ {I : Type 0} where
  -- The guest ids that a recipe needs recreated before it.
  unfoldable pub parents : Recreatable I → List ℕ
  parents (global i v) = []
  parents (surface p) = p ∷ []
  parents (xdg_surface p s) = p ∷ s ∷ []
  parents (xdg_toplevel p t a) = p ∷ []
  parents (shm_pool p fd size) = p ∷ []
  parents (shm_buffer p o w h st f) = p ∷ []
  parents (dmabuf_buffer p w h f fl ps) = p ∷ []
  parents (seat_device p k) = p ∷ []
  parents (viewport p s d) = p ∷ s ∷ []
  parents (fractional_scale p s) = p ∷ s ∷ []

  -- Every recipe's parents are among the ids seen before it.
  abbrev pub InOrder : List ℕ → List (ℕ × Recreatable I) → Type 0
  InOrder seen [] = Unit
  InOrder seen ((id, r) ∷ m) = AllIn seen (parents r) × InOrder (id ∷ seen) m

  -- The ids of a list of recipes, after those seen before, latest first.
  unfoldable pub ids_after : List ℕ → List (ℕ × Recreatable I) → List ℕ
  ids_after seen [] = seen
  ids_after seen ((id, r) ∷ m) = ids_after (id ∷ seen) m

  InOrder-snoc :
      (seen : List ℕ) (m : List (ℕ × Recreatable I)) (i : ℕ) (r : Recreatable I)
      → InOrder seen m
      → AllIn (ids_after seen m) (parents r)
      → InOrder seen (m ++ (i, r) ∷ [])
  unfolding ids_after
  InOrder-snoc seen [] i r o h = (h, tt)
  InOrder-snoc seen ((k, q) ∷ m) i r o h = (o.0, InOrder-snoc (k ∷ seen) m i r o.1 h)

  -- Recording an object whose parents are recorded keeps every recipe behind its parents, if it
  -- was so.
  pub record_recipe-InOrder :
      (g : RecreationGraph I) (i : ℕ) (r : Recreatable I)
      → InOrder [] g.recipes
      → AllIn (ids_after [] g.recipes) (parents r)
      → InOrder [] (record_recipe g i r).recipes
  unfolding record_recipe
  record_recipe-InOrder g i r o h = InOrder-snoc [] g.recipes i r o h

  module _ (shape : Recreatable I → Bool) (change : Recreatable I → Recreatable I)
      (same : (r : Recreatable I) → parents (change r) ≡ parents r) where
    update_last-InOrder :
        (i : ℕ) (seen : List ℕ) (m : List (ℕ × Recreatable I))
        → InOrder seen m
        → InOrder seen (update_last i shape change m)
    unfolding update_last
    update_last-InOrder i seen [] o = tt
    update_last-InOrder i seen ((k, q) ∷ m) o = elim (Bool-cases (has_shape i shape m)) [
      | inl later ↦ rw (later, update_last) (o.0, update_last-InOrder i (k ∷ seen) m o.1)
      | inr last ↦ elim (Bool-cases (k == i && shape q)) [
        | inl hit ↦ rw (last, hit, update_last) (rw (same q) o.0, o.1)
        | inr miss ↦ rw (last, miss, update_last) o
      ]
    ]

  size_parents : (n : ℕ) (r : Recreatable I) → parents (with_size n r) ≡ parents r
  unfolding with_size parents
  size_parents n (shm_pool p fd size) = refl
  size_parents n _ = refl

  title_parents : (b : Bytes) (r : Recreatable I) → parents (with_title b r) ≡ parents r
  unfolding with_title parents
  title_parents b (xdg_toplevel p title app_id) = refl
  title_parents b _ = refl

  app_id_parents : (b : Bytes) (r : Recreatable I) → parents (with_app_id b r) ≡ parents r
  unfolding with_app_id parents
  app_id_parents b (xdg_toplevel p title app_id) = refl
  app_id_parents b _ = refl

  destination_parents : (w h : ℕ) (r : Recreatable I) → parents (with_destination w h r) ≡ parents r
  unfolding with_destination parents
  destination_parents w h (viewport p s d) = refl
  destination_parents w h _ = refl

  -- No update in place changes that every recipe stands behind its parents.
  pub update-InOrder :
      (g : RecreationGraph I) (i size width height : ℕ) (text : Bytes)
      → InOrder [] g.recipes
      → InOrder [] (update_shm_pool_size g i size).recipes
        × InOrder [] (update_toplevel_title g i text).recipes
        × InOrder [] (update_toplevel_app_id g i text).recipes
        × InOrder [] (update_viewport_destination g i width height).recipes
  unfolding update_shm_pool_size update_toplevel_title update_toplevel_app_id
      update_viewport_destination
  update-InOrder g i size width height text o = (
    update_last-InOrder is_shm_pool (with_size size) (size_parents size) i [] g.recipes o,
    update_last-InOrder is_xdg_toplevel (with_title text) (title_parents text) i [] g.recipes o,
    update_last-InOrder is_xdg_toplevel (with_app_id text) (app_id_parents text) i [] g.recipes o,
    update_last-InOrder is_viewport (with_destination width height)
        (destination_parents width height) i [] g.recipes o,
  )
