-- ===== src/Recovery/Replay.antt =====
-- src/lib.rs: the loop over the recipes in `recover_state_after_reconnect`.
use wl_resprox.Prelude.{ℕ, List, [], ◌∷◌}
use wl_resprox.Recreation.Graph.{
  Recreatable, RecreationGraph, global, surface, xdg_surface, xdg_toplevel, shm_pool, shm_buffer,
  dmabuf_buffer, seat_device, viewport, fractional_scale,
}
use wl_resprox.Relay.Session.{World}
use wl_resprox.Recovery.State.{Recovery, Step, skipped, created, panicked}
use wl_resprox.Recovery.Registry.{Globals}
use wl_resprox.Recovery.Recreate.{
  recreate_global, recreate_surface, recreate_xdg_surface, recreate_shm_pool, recreate_shm_buffer,
  recreate_seat_device, recreate_viewport, recreate_fractional_scale,
}
use wl_resprox.Recovery.Dmabuf.{recreate_dmabuf_buffer}
use wl_resprox.Recovery.Toplevel.{recreate_xdg_toplevel}

-- What the loop finds before it: the globals, the registry's host id and interface, and the recipes.
pub record Found (I : Type 0) : Type 0 where
  pub globals : Globals
  pub registry_host_id : ℕ
  pub registry_interface : I
  pub graph : RecreationGraph I

pub data Replayed (B I : Type 0) : Type 0 where
  finished : Recovery B I → Replayed B I
  aborted : Replayed B I

module _ {B I : Type 0} (W : World B I) where
  unfoldable pub replay_recipe : Found I → ℕ → Recreatable I → Recovery B I → Step B I
  unfolding recreate_global recreate_surface recreate_xdg_surface recreate_xdg_toplevel
      recreate_shm_pool recreate_shm_buffer recreate_dmabuf_buffer recreate_seat_device
      recreate_viewport recreate_fractional_scale
  replay_recipe f guest (global interface version) =
      recreate_global W f.globals f.registry_host_id f.registry_interface guest interface version
  replay_recipe f guest (surface p) = recreate_surface W guest p
  replay_recipe f guest (xdg_surface p s) = recreate_xdg_surface W guest p s
  replay_recipe f guest (xdg_toplevel p title app_id) =
      recreate_xdg_toplevel W f.graph guest p title app_id
  replay_recipe f guest (shm_pool p fd size) = recreate_shm_pool W guest p fd size
  replay_recipe f guest (shm_buffer p offset width height stride format) =
      recreate_shm_buffer W guest p offset width height stride format
  replay_recipe f guest (dmabuf_buffer p width height format flags planes) =
      recreate_dmabuf_buffer W guest p width height format flags planes
  replay_recipe f guest (seat_device p kind) = recreate_seat_device W guest p kind
  replay_recipe f guest (viewport p s d) = recreate_viewport W guest p s d
  replay_recipe f guest (fractional_scale p s) = recreate_fractional_scale W guest p s

  -- A recipe passed over and one that made an object both go on with the next.
  unfoldable pub go_on : (Recovery B I → Replayed B I) → Step B I → Replayed B I
  go_on next (skipped s) = next s
  go_on next (created host child s) = next s
  go_on next panicked = aborted

  unfoldable pub replay : Found I → List (ℕ × Recreatable I) → Recovery B I → Replayed B I
  unfolding replay_recipe go_on
  replay f [] s = finished s
  replay f ((guest, recipe) ∷ rest) s =
      go_on (λ s'. replay f rest s') (replay_recipe f guest recipe s)
