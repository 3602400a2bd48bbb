-- ===== src/Recovery/Growth.antt =====
-- src/lib.rs: what a recipe does to the table in `recover_state_after_reconnect`.
use Prim.Native.String.{String}
use wl_resprox.Prelude.{
  get_elem?, ℕ, zero, suc, ◌≤◌, ◌≡◌, refl, ◌∙◌, List, [], ◌∷◌, Option, none, some, arith,
  Bool-cases, Option-cases, inl, inr,
}
use wl_resprox.Wire.Words.{Bytes}
use wl_resprox.Wire.Encode.{ArgumentType, WaylandValue}
use wl_resprox.Shadow.Table.{ShadowTable, allocate_host_id, map_ids}
use wl_resprox.Relay.Session.{World}
use wl_resprox.Recreation.Graph.{
  Recreatable, RecreationGraph, DmabufPlane, global, surface, xdg_surface, xdg_toplevel, shm_pool,
  shm_buffer, dmabuf_buffer, seat_device, viewport, fractional_scale, request_name,
}
use wl_resprox.Recovery.State.{Recovery, Step, skipped, created, panicked, request_named}
use wl_resprox.Recovery.Registry.{Globals, found_global}
use wl_resprox.Recovery.Recreate.{
  new_values, new_and_object_values, pool_values, shm_buffer_values, target_of, map_object,
  issue_new, create, recreate, capped, bind_values, recreate_global, replay_destination,
}
use wl_resprox.Recovery.Dmabuf.{
  add_planes, create_immed, fill_params, buffer_values, recreate_dmabuf_buffer,
}
use wl_resprox.Recovery.Toplevel.{introduce}
use wl_resprox.Recovery.Replay.{Found, replay_recipe}
use wl_resprox.Recovery.Stays.{follow_up-Stays, present-Stays}

module _ {B I : Type 0} (W : World B I) where
  -- The table after so many allocations.
  unfoldable pub advance : ℕ → ShadowTable B I → ShadowTable B I
  unfolding allocate_host_id
  advance zero t = t
  advance (suc n) t = advance n (allocate_host_id W.protocol W.ids t).1

  -- A recipe for `guest` allocates `most` host ids at most, and maps nothing or `guest` to the last.
  abbrev pub Grown : ℕ → ℕ → ShadowTable B I → Step B I → Type 0
  Grown most guest t (skipped s) = (n : ℕ) × (n ≤ most) × (s.objects ≡ advance n t)
  Grown most guest t (created host child s) =
      (n : ℕ) × (suc n ≤ most)
      × (host ≡ (advance n t).next_host_id)
      × (s.objects ≡ map_ids W.protocol W.ids (advance (suc n) t) guest host child)
  Grown most guest t panicked = Unit

  create-Grown :
      (guest : ℕ) (child : I) (sender opcode : ℕ) (signature : List ArgumentType)
      (values : ℕ → List WaylandValue) (s : Recovery B I)
      → Grown 1 guest s.objects (create W guest child sender opcode signature values s)
  unfolding create issue_new map_object advance
  create-Grown guest child sender opcode signature values s =
      elim (Bool-cases (issue_new W sender opcode signature values s).0) [
        | inl written ↦ rw (written, create) (0, omega arith, refl, refl)
        | inr not_written ↦ rw (not_written, create) (1, omega arith, refl)
      ]

  Grown-most :
      (most more guest : ℕ) (t : ShadowTable B I) (x : Step B I)
      → most ≤ more
      → Grown most guest t x
      → Grown more guest t x
  Grown-most most more guest t (skipped s) h (n, few, same) = (n, omega arith, same)
  Grown-most most more guest t (created host child s) h (n, few, last, same) =
      (n, omega arith, last, same)
  Grown-most most more guest t panicked h g = tt

  recreate-Grown :
      (guest parent : ℕ) (other : Option ℕ) (name : String) (values : ℕ → ℕ → List WaylandValue)
      (s : Recovery B I)
      → Grown 1 guest s.objects (recreate W guest parent other name values s)
  unfolding recreate advance
  recreate-Grown guest parent other name values s =
      elim (Option-cases (target_of W s.objects parent other name)) [
        | inl missing ↦ rw (missing, recreate) (0, omega arith, refl)
        | inr (target, found) ↦ elim (Option-cases target.desc.child_interface) [
          | inl none' ↦ rw (found, none', recreate) tt
          | inr (child, c) ↦
              rw (found, c, recreate)
                (create-Grown guest child target.parent_host_id target.opcode target.desc.signature
                  (λ new. values new target.other_host_id) s)
        ]
      ]

  recreate_global-Grown :
      (globals : Globals) (registry : ℕ) (registry_interface : I) (guest : ℕ) (interface : I)
      (requested : ℕ) (s : Recovery B I)
      → Grown 1 guest s.objects
          (recreate_global W globals registry registry_interface guest interface requested s)
  unfolding recreate_global advance
  recreate_global-Grown globals registry registry_interface guest interface requested s =
      elim (Option-cases (found_global (W.protocol.name interface) globals)) [
        | inl missing ↦ rw (missing, recreate_global) (0, omega arith, refl)
        | inr ((name, version), found) ↦
            elim (Option-cases (get_elem? (W.protocol.requests registry_interface) 0)) [
              | inl none' ↦ rw (found, none', recreate_global) tt
              | inr (bind, b) ↦
                  rw (found, b, recreate_global)
                    (create-Grown guest interface registry 0 bind.signature
                      (bind_values W interface name (capped W requested version)) s)
            ]
      ]

  -- A step on a table that a first allocation made.
  Grown-after :
      (most guest : ℕ) (t : ShadowTable B I) (x : Step B I)
      → Grown most guest (advance 1 t) x
      → Grown (suc most) guest t x
  unfolding advance
  Grown-after most guest t (skipped s) (n, few, same) = (suc n, omega arith, same)
  Grown-after most guest t (created host child s) (n, few, last, same) =
      (suc n, omega arith, last, same)
  Grown-after most guest t panicked g = tt

  create_immed-Grown :
      (guest : ℕ) (params_interface : I) (params : ℕ) (values : ℕ → List WaylandValue)
      (s : Recovery B I)
      → Grown 1 guest s.objects (create_immed W guest params_interface params values s)
  unfolding create_immed advance
  create_immed-Grown guest params_interface params values s =
      elim (Option-cases (request_named W params_interface "create_immed")) [
        | inl missing ↦ rw (missing, create_immed) (0, omega arith, refl)
        | inr ((opcode, desc), found) ↦ elim (Option-cases desc.child_interface) [
          | inl none' ↦ rw (found, none', create_immed) tt
          | inr (child, c) ↦
              rw (found, c, create_immed)
                (create-Grown guest child params opcode desc.signature values s)
        ]
      ]

  fill_params-Grown :
      (guest : ℕ) (params_interface : I) (params : ℕ) (planes : List DmabufPlane)
      (values : ℕ → List WaylandValue) (s : Recovery B I)
      → Grown 1 guest s.objects (fill_params W guest params_interface params planes values s)
  unfolding fill_params advance
  fill_params-Grown guest params_interface params planes values s =
      elim (Option-cases (request_named W params_interface "add")) [
        | inl missing ↦ rw (missing, fill_params) (0, omega arith, refl)
        | inr ((opcode, desc), found) ↦
            elim (Bool-cases (add_planes W params opcode desc.signature planes s.host).0) [
              | inl added ↦
                  rw (found, added, fill_params)
                    (create_immed-Grown guest params_interface params values _)
              | inr not_added ↦ rw (found, not_added, fill_params) (0, omega arith, refl)
            ]
      ]

  recreate_dmabuf_buffer-Grown :
      (guest dmabuf width height format flags : ℕ) (planes : List DmabufPlane) (s : Recovery B I)
      → Grown 2 guest s.objects
          (recreate_dmabuf_buffer W guest dmabuf width height format flags planes s)
  unfolding recreate_dmabuf_buffer advance issue_new
  recreate_dmabuf_buffer-Grown guest dmabuf width height format flags planes s =
      elim (Option-cases (target_of W s.objects dmabuf none "create_params")) [
        | inl missing ↦ rw (missing, recreate_dmabuf_buffer) (0, omega arith, refl)
        | inr (target, found) ↦ elim (Option-cases target.desc.child_interface) [
          | inl none' ↦ rw (found, none', recreate_dmabuf_buffer) tt
          | inr (child, c) ↦
              elim (Bool-cases
                (issue_new W target.parent_host_id target.opcode target.desc.signature
                  (λ new. WaylandValue.new_id new ∷ []) s).0) [
                    | inl written ↦
                        rw (found, c, written, recreate_dmabuf_buffer)
                          (Grown-after 1 guest s.objects _ (
                            fill_params-Grown guest child _ planes
                              (buffer_values width height format flags) _))
                    | inr not_written ↦
                        rw (found, c, not_written, recreate_dmabuf_buffer) (1, omega arith, refl)
                  ]
        ]
      ]

  introduce-Grown :
      (graph : RecreationGraph I) (before : ShadowTable B I) (guest parent : ℕ)
      (title app_id : Option Bytes) (t : ShadowTable B I) (x : Step B I)
      → Grown 1 guest t x
      → Grown 1 guest t (introduce W graph before guest parent title app_id x)
  unfolding introduce
  introduce-Grown graph before guest parent title app_id t (skipped s) g = g
  introduce-Grown graph before guest parent title app_id t panicked g = tt
  introduce-Grown graph before guest parent title app_id t (created host child s)
        (n, few, last, same) =
      let stays = present-Stays W graph before guest parent title app_id host child s in
      (n, few, last, stays.0 ∙ same)

  replay_destination-Grown :
      (destination : Option (ℕ × ℕ)) (guest : ℕ) (t : ShadowTable B I) (x : Step B I)
      → Grown 1 guest t x
      → Grown 1 guest t (replay_destination W destination x)
  unfolding replay_destination
  replay_destination-Grown none guest t (skipped s) g = g
  replay_destination-Grown none guest t panicked g = tt
  replay_destination-Grown none guest t (created host child s) g = g
  replay_destination-Grown (some d) guest t (skipped s) g = g
  replay_destination-Grown (some d) guest t panicked g = tt
  replay_destination-Grown (some (width, height)) guest t (created host child s)
        (n, few, last, same) =
      let stays =
        follow_up-Stays W host child "set_destination"
          (WaylandValue.int width ∷ WaylandValue.int height ∷ []) s in
      (n, few, last, stays.0 ∙ same)

  pub replay_recipe-Grown :
      (f : Found I) (guest : ℕ) (recipe : Recreatable I) (s : Recovery B I)
      → Grown 2 guest s.objects (replay_recipe W f guest recipe s)
  unfolding replay_recipe
  replay_recipe-Grown f guest (global interface version) s =
      Grown-most 1 2 guest s.objects _ (omega arith) (
        recreate_global-Grown f.globals f.registry_host_id f.registry_interface guest interface
          version s)
  replay_recipe-Grown f guest (surface p) s =
      Grown-most 1 2 guest s.objects _ (omega arith)
        (recreate-Grown guest p none "create_surface" new_values s)
  replay_recipe-Grown f guest (xdg_surface p o) s =
      Grown-most 1 2 guest s.objects _ (omega arith)
        (recreate-Grown guest p (some o) "get_xdg_surface" new_and_object_values s)
  replay_recipe-Grown f guest (xdg_toplevel p title app_id) s =
      Grown-most 1 2 guest s.objects _ (omega arith) (
        introduce-Grown f.graph s.objects guest p title app_id s.objects _
          (recreate-Grown guest p none "get_toplevel" new_values s))
  replay_recipe-Grown f guest (shm_pool p fd size) s =
      Grown-most 1 2 guest s.objects _ (omega arith)
        (recreate-Grown guest p none "create_pool" (pool_values fd size) s)
  replay_recipe-Grown f guest (shm_buffer p o w h st fo) s =
      Grown-most 1 2 guest s.objects _ (omega arith)
        (recreate-Grown guest p none "create_buffer" (shm_buffer_values o w h st fo) s)
  replay_recipe-Grown f guest (dmabuf_buffer p w h fo fl planes) s =
      recreate_dmabuf_buffer-Grown guest p w h fo fl planes s
  replay_recipe-Grown f guest (seat_device p kind) s =
      Grown-most 1 2 guest s.objects _ (omega arith)
        (recreate-Grown guest p none (request_name kind) new_values s)
  replay_recipe-Grown f guest (viewport p o d) s = Grown-most 1 2 guest s.objects _ (omega arith) (
      replay_destination-Grown d guest s.objects _
        (recreate-Grown guest p (some o) "get_viewport" new_and_object_values s))
  replay_recipe-Grown f guest (fractional_scale p o) s =
      Grown-most 1 2 guest s.objects _ (omega arith)
        (recreate-Grown guest p (some o) "get_fractional_scale" new_and_object_values s)
