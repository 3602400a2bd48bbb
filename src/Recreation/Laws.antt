-- ===== src/Recreation/Laws.antt =====
-- src/recreation.rs: what `recipe_for` finds after each operation.
use wl_resprox.Prelude.{
  ℕ, ◌≡◌, refl, sym, ap, Bool, false, List, [], ◌∷◌, ◌++◌, Option, none, some, if◌then◌else◌, ◌==◌,
  arith, Option-cases, inl, inr,
}
use wl_resprox.Wire.Words.{Bytes}
use wl_resprox.Recreation.Graph.{
  Recreatable, RecreationGraph, shm_pool, viewport, xdg_toplevel, record_recipe, last_recipe,
  recipe_for, retain_others, remove, has_shape, update_last, is_shm_pool, is_xdg_toplevel,
  is_viewport, with_size, with_title, with_app_id, with_destination, update_shm_pool_size,
  update_toplevel_title, update_toplevel_app_id, update_viewport_destination,
}

abbrev pub on_some {ℓ} : {A : Type ℓ} → (A → A) → Option A → Option A
on_some f none = none
on_some f (some a) = some (f a)

-- A change of one field of a recipe.
pub data Edit : Type 0 where
  size : ℕ → Edit
  title app_id : Bytes → Edit
  destination : (width height : ℕ) → Edit

module _ {I : Type 0} where
  last_recipe-snoc :
      (m : List (ℕ × Recreatable I)) (i : ℕ) (r : Recreatable I) (j : ℕ)
      → last_recipe j (m ++ (i, r) ∷ []) ≡ (if j == i then some r else last_recipe j m)
  unfolding last_recipe
  last_recipe-snoc [] i r j = ground arith
  last_recipe-snoc ((k, q) ∷ m) i r j = ground (arith, last_recipe-snoc m i r j)

  last_recipe-retain_others :
      (m : List (ℕ × Recreatable I)) (i j : ℕ)
      → last_recipe j (retain_others i m) ≡ (if j == i then none else last_recipe j m)
  unfolding last_recipe retain_others
  last_recipe-retain_others [] i j = ground arith
  last_recipe-retain_others ((k, q) ∷ m) i j = ground (arith, last_recipe-retain_others m i j)

  -- A recorded recipe is the one found for its id, also when the id had one; no other id changes.
  -- After a removal the id has none, and no other id changes.
  pub recipe_for_lem :
      (g : RecreationGraph I) (i j : ℕ) (r : Recreatable I)
      → (recipe_for (record_recipe g i r) j ≡ (if j == i then some r else recipe_for g j))
        × (recipe_for (remove g i) j ≡ (if j == i then none else recipe_for g j))
  unfolding recipe_for record_recipe remove
  recipe_for_lem g i j r =
      (last_recipe-snoc g.recipes i r j, last_recipe-retain_others g.recipes i j)

  module _ (shape : Recreatable I → Bool) (change : Recreatable I → Recreatable I)
      (others : (r : Recreatable I) → shape r ≡ false → change r ≡ r) where
    no_shape :
        (m : List (ℕ × Recreatable I)) (i : ℕ) (r : Recreatable I)
        → has_shape i shape m ≡ false
        → last_recipe i m ≡ some r
        → shape r ≡ false
    unfolding has_shape last_recipe
    no_shape [] i r h e = cc
    no_shape ((k, q) ∷ m) i r h e = ground (arith, no_shape m i r)

    none_no_shape :
        (m : List (ℕ × Recreatable I)) (i : ℕ)
        → last_recipe i m ≡ none
        → has_shape i shape m ≡ false
    unfolding has_shape last_recipe
    none_no_shape [] i e = refl
    none_no_shape ((k, q) ∷ m) i e = ground (arith, none_no_shape m i)

    -- An update in place changes what is found for its id, if that has the shape; where it has
    -- not, nothing that can be found changes.
    last_recipe-update_last :
        (m : List (ℕ × Recreatable I)) (i j : ℕ)
        → last_recipe j (update_last i shape change m)
          ≡ (if j == i then on_some change (last_recipe j m) else last_recipe j m)
    unfolding last_recipe update_last
    last_recipe-update_last [] i j = ground arith
    last_recipe-update_last ((k, q) ∷ m) i j = elim (Option-cases (last_recipe i m)) [
      | inl e ↦ ground (arith, none_no_shape m i e, others q, last_recipe-update_last m i j)
      | inr (r, e) ↦
          ground (arith, others q, others r, no_shape m i r, last_recipe-update_last m i j)
    ]

  size_others : (n : ℕ) (r : Recreatable I) → is_shm_pool r ≡ false → with_size n r ≡ r
  unfolding is_shm_pool with_size
  size_others n (shm_pool p fd old) h = cc
  size_others n _ h = refl

  title_others : (b : Bytes) (r : Recreatable I) → is_xdg_toplevel r ≡ false → with_title b r ≡ r
  unfolding is_xdg_toplevel with_title
  title_others b (xdg_toplevel p old other) h = cc
  title_others b _ h = refl

  app_id_others : (b : Bytes) (r : Recreatable I) → is_xdg_toplevel r ≡ false → with_app_id b r ≡ r
  unfolding is_xdg_toplevel with_app_id
  app_id_others b (xdg_toplevel p old other) h = cc
  app_id_others b _ h = refl

  destination_others :
      (w h : ℕ) (r : Recreatable I) → is_viewport r ≡ false → with_destination w h r ≡ r
  unfolding is_viewport with_destination
  destination_others x y (viewport p s d) h = cc
  destination_others x y _ h = refl

  -- The edits, each with the field that it sets written out.
  unfoldable pub edited : Edit → Recreatable I → Recreatable I
  edited (size n) (shm_pool parent fd old) = shm_pool parent fd n
  edited (title text) (xdg_toplevel parent old other) = xdg_toplevel parent (some text) other
  edited (app_id text) (xdg_toplevel parent other old) = xdg_toplevel parent other (some text)
  edited (destination w h) (viewport parent other old) = viewport parent other (some (w, h))
  edited _ recipe = recipe

  with_size-edited : (n : ℕ) (r : Recreatable I) → with_size n r ≡ edited (size n) r
  unfolding with_size edited
  with_size-edited n (shm_pool p fd old) = refl
  with_size-edited n _ = refl

  with_title-edited : (text : Bytes) (r : Recreatable I) → with_title text r ≡ edited (title text) r
  unfolding with_title edited
  with_title-edited text (xdg_toplevel p old other) = refl
  with_title-edited text _ = refl

  with_app_id-edited :
      (text : Bytes) (r : Recreatable I) → with_app_id text r ≡ edited (app_id text) r
  unfolding with_app_id edited
  with_app_id-edited text (xdg_toplevel p other old) = refl
  with_app_id-edited text _ = refl

  with_destination-edited :
      (w h : ℕ) (r : Recreatable I) → with_destination w h r ≡ edited (destination w h) r
  unfolding with_destination edited
  with_destination-edited w h (viewport p other old) = refl
  with_destination-edited w h _ = refl

  on_some-change :
      (f g : Recreatable I → Recreatable I) (x : Option (Recreatable I))
      → ((r : Recreatable I) → f r ≡ g r)
      → on_some f x ≡ on_some g x
  on_some-change f g none same = refl
  on_some-change f g (some r) same = ap some (same r)

  -- Each update makes its one edit to the recipe that is found for its id: the size of a pool, the
  -- title or the application id of a toplevel, the destination of a viewport. A recipe of another kind
  -- is left as it is, as are all other fields, and no recipe that is found for another id changes.
  pub recipe_for-update :
      (g : RecreationGraph I) (i j n width height : ℕ) (text : Bytes)
      → (recipe_for (update_shm_pool_size g i n) j
          ≡ (if j == i then on_some (edited (size n)) (recipe_for g j) else recipe_for g j))
        × (recipe_for (update_toplevel_title g i text) j
            ≡ (if j == i then on_some (edited (title text)) (recipe_for g j) else recipe_for g j))
        × (recipe_for (update_toplevel_app_id g i text) j
            ≡ (if j == i then on_some (edited (app_id text)) (recipe_for g j) else recipe_for g j))
        × (recipe_for (update_viewport_destination g i width height) j ≡ (
            if j == i
            then on_some (edited (destination width height)) (recipe_for g j)
            else recipe_for g j))
  unfolding recipe_for update_shm_pool_size update_toplevel_title update_toplevel_app_id
      update_viewport_destination
  recipe_for-update g i j n width height text =
      let found = last_recipe j g.recipes in
      (
        rw (sym (on_some-change (with_size n) (edited (size n)) found (with_size-edited n)))
            (last_recipe-update_last is_shm_pool (with_size n) (size_others n) g.recipes i j),
        rw
            (sym (
              on_some-change (with_title text) (edited (title text)) found
                (with_title-edited text)))
            (last_recipe-update_last is_xdg_toplevel (with_title text) (title_others text) g.recipes
              i j),
        rw
            (sym (
              on_some-change (with_app_id text) (edited (app_id text)) found
                (with_app_id-edited text)))
            (last_recipe-update_last is_xdg_toplevel (with_app_id text) (app_id_others text)
              g.recipes i j),
        rw
            (sym (
              on_some-change (with_destination width height) (edited (destination width height))
                found (with_destination-edited width height)))
            (last_recipe-update_last is_viewport (with_destination width height)
              (destination_others width height) g.recipes i j),
      )
