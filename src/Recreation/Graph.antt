-- ===== src/Recreation/Graph.antt =====
-- src/recreation.rs: `Recreatable` and `RecreationGraph`.
use Prim.Native.String.{String}
use wl_resprox.Prelude.{
  ℕ, Bool, true, false, ◌&&◌, ◌||◌, List, [], ◌∷◌, ◌++◌, Option, none, some, if◌then◌else◌, ◌==◌,
}
use wl_resprox.Wire.Words.{Bytes}

pub data SeatDeviceKind : Type 0 where
  pointer keyboard touch : SeatDeviceKind

unfoldable pub request_name : SeatDeviceKind → String
request_name pointer = "get_pointer"
request_name keyboard = "get_keyboard"
request_name touch = "get_touch"

pub record DmabufPlane : Type 0 where
  pub fd : ℕ
  pub plane_idx : ℕ
  pub offset : ℕ
  pub stride : ℕ
  pub modifier : ℕ

pub data Recreatable (I : Type 0) : Type 0 where
  global : (interface : I) (version : ℕ) → Recreatable I
  surface : (parent_guest_id : ℕ) → Recreatable I
  xdg_surface : (parent_guest_id surface_guest_id : ℕ) → Recreatable I
  xdg_toplevel :
      (parent_guest_id : ℕ) (title : Option Bytes) (app_id : Option Bytes) → Recreatable I
  shm_pool : (wl_shm_guest_id fd size : ℕ) → Recreatable I
  shm_buffer : (pool_guest_id offset width height stride format : ℕ) → Recreatable I
  dmabuf_buffer :
      (dmabuf_guest_id width height format flags : ℕ) (planes : List DmabufPlane) → Recreatable I
  seat_device : (seat_guest_id : ℕ) (kind : SeatDeviceKind) → Recreatable I
  viewport :
      (viewporter_guest_id surface_guest_id : ℕ) (destination : Option (ℕ × ℕ)) → Recreatable I
  fractional_scale : (manager_guest_id surface_guest_id : ℕ) → Recreatable I

pub record RecreationGraph (I : Type 0) : Type 0 where
  pub recipes : List (ℕ × Recreatable I)

module _ {I : Type 0} where
  unfoldable pub new : RecreationGraph I
  new = record { recipes = [] }

  -- `record`: a new recipe goes to the end, whatever the id had before.
  unfoldable pub record_recipe : RecreationGraph I → ℕ → Recreatable I → RecreationGraph I
  record_recipe g guest_id recipe = record { recipes = g.recipes ++ (guest_id, recipe) ∷ [] }

  -- `iter().rev().find(..)`.
  unfoldable pub last_recipe : ℕ → List (ℕ × Recreatable I) → Option (Recreatable I)
  last_recipe guest_id [] = none
  last_recipe guest_id ((id, r) ∷ m) = elim (last_recipe guest_id m) [
    | some later ↦ some later
    | none ↦ if id == guest_id then some r else none
  ]

  unfoldable pub recipe_for : RecreationGraph I → ℕ → Option (Recreatable I)
  unfolding last_recipe
  recipe_for g guest_id = last_recipe guest_id g.recipes

  unfoldable pub retain_others : ℕ → List (ℕ × Recreatable I) → List (ℕ × Recreatable I)
  retain_others guest_id [] = []
  retain_others guest_id ((id, r) ∷ m) =
      if id == guest_id then retain_others guest_id m else (id, r) ∷ retain_others guest_id m

  unfoldable pub remove : RecreationGraph I → ℕ → RecreationGraph I
  unfolding retain_others
  remove g guest_id = record { recipes = retain_others guest_id g.recipes }

  -- Whether a list has a recipe for the id that `shape` accepts.
  unfoldable pub has_shape : ℕ → (Recreatable I → Bool) → List (ℕ × Recreatable I) → Bool
  has_shape guest_id shape [] = false
  has_shape guest_id shape ((id, r) ∷ m) = id == guest_id && shape r || has_shape guest_id shape m

  -- `iter_mut().rev().find(..)`, and a change in place of what is found.
  unfoldable pub update_last :
      ℕ
      → (Recreatable I → Bool)
      → (Recreatable I → Recreatable I)
      → List (ℕ × Recreatable I)
      → List (ℕ × Recreatable I)
  unfolding has_shape
  update_last guest_id shape change [] = []
  update_last guest_id shape change ((id, r) ∷ m) =
      if has_shape guest_id shape m
      then (id, r) ∷ update_last guest_id shape change m
      else if id == guest_id && shape r
      then (id, change r) ∷ m
      else (id, r) ∷ m

  unfoldable pub is_shm_pool : Recreatable I → Bool
  is_shm_pool (shm_pool p fd size) = true
  is_shm_pool _ = false

  unfoldable pub is_xdg_toplevel : Recreatable I → Bool
  is_xdg_toplevel (xdg_toplevel p title app_id) = true
  is_xdg_toplevel _ = false

  unfoldable pub is_viewport : Recreatable I → Bool
  is_viewport (viewport p s d) = true
  is_viewport _ = false

  unfoldable pub with_size : ℕ → Recreatable I → Recreatable I
  with_size new_size (shm_pool p fd size) = shm_pool p fd new_size
  with_size new_size r = r

  unfoldable pub with_title : Bytes → Recreatable I → Recreatable I
  with_title new_title (xdg_toplevel p title app_id) = xdg_toplevel p (some new_title) app_id
  with_title new_title r = r

  unfoldable pub with_app_id : Bytes → Recreatable I → Recreatable I
  with_app_id new_app_id (xdg_toplevel p title app_id) = xdg_toplevel p title (some new_app_id)
  with_app_id new_app_id r = r

  unfoldable pub with_destination : ℕ → ℕ → Recreatable I → Recreatable I
  with_destination width height (viewport p s d) = viewport p s (some (width, height))
  with_destination width height r = r

  unfoldable pub update_shm_pool_size : RecreationGraph I → ℕ → ℕ → RecreationGraph I
  unfolding update_last is_shm_pool with_size
  update_shm_pool_size g guest_id new_size = record {
    recipes = update_last guest_id is_shm_pool (with_size new_size) g.recipes;
  }

  unfoldable pub update_toplevel_title : RecreationGraph I → ℕ → Bytes → RecreationGraph I
  unfolding update_last is_xdg_toplevel with_title
  update_toplevel_title g guest_id new_title = record {
    recipes = update_last guest_id is_xdg_toplevel (with_title new_title) g.recipes;
  }

  unfoldable pub update_toplevel_app_id : RecreationGraph I → ℕ → Bytes → RecreationGraph I
  unfolding update_last is_xdg_toplevel with_app_id
  update_toplevel_app_id g guest_id new_app_id = record {
    recipes = update_last guest_id is_xdg_toplevel (with_app_id new_app_id) g.recipes;
  }

  unfoldable pub update_viewport_destination : RecreationGraph I → ℕ → ℕ → ℕ → RecreationGraph I
  unfolding update_last is_viewport with_destination
  update_viewport_destination g guest_id width height = record {
    recipes = update_last guest_id is_viewport (with_destination width height) g.recipes;
  }
