-- ===== src/Recovery/Client.antt =====
-- src/lib.rs: the recipes in `recover_state_after_reconnect`, the client's line and what the client is
-- owed.
use Prim.Native.String.{String}
use wl_resprox.Prelude.{
  ℕ, List, [], ◌∷◌, Option, none, some, get_elem?, Bool-cases, Option-cases, inl, inr,
}
use wl_resprox.Wire.Words.{Bytes}
use wl_resprox.Wire.Encode.{ArgumentType, WaylandValue}
use wl_resprox.Shadow.Table.{ShadowTable}
use wl_resprox.Recreation.Graph.{
  Recreatable, RecreationGraph, DmabufPlane, global, surface, xdg_surface, xdg_toplevel, shm_pool,
  shm_buffer, dmabuf_buffer, seat_device, viewport, fractional_scale, request_name,
}
use wl_resprox.Relay.Session.{World}
use wl_resprox.Connection.Line.{Line}
use wl_resprox.Trackers.PendingFrames.{PendingFrameTracker}
use wl_resprox.Trackers.BufferFlow.{BufferFlowTracker}
use wl_resprox.Recovery.State.{Recovery, Step, skipped, created, panicked, request_named}
use wl_resprox.Recovery.Registry.{Globals, found_global}
use wl_resprox.Recovery.Recreate.{
  bind_values, capped, new_values, new_and_object_values, pool_values, shm_buffer_values, target_of,
  issue_new, map_object, create, recreate, recreate_global, replay_destination, follow_up,
}
use wl_resprox.Recovery.Dmabuf.{
  buffer_values, add_planes, create_immed, fill_params, recreate_dmabuf_buffer,
}
use wl_resprox.Recovery.Toplevel.{introduce, present}
use wl_resprox.Recovery.Replay.{Found, Replayed, finished, aborted, replay_recipe, go_on, replay}
use wl_resprox.Recovery.Stays.{Stays, follow_up-Stays, present-Stays}

-- `P` is what a step keeps, of the client's line and of what the client is owed.
module _ {B I : Type 0} (W : World B I)
    (P : Line → BufferFlowTracker → PendingFrameTracker → Type 0)
    (keeps : (s t : Recovery B I)
      → Stays W s t
      → P s.gtk s.buffer_flow s.pending_frames
      → P t.gtk t.buffer_flow t.pending_frames) where
  -- After a step, and after the loop.
  abbrev pub StepKept : Step B I → Type 0
  StepKept (skipped s) = P s.gtk s.buffer_flow s.pending_frames
  StepKept (created host child s) = P s.gtk s.buffer_flow s.pending_frames
  StepKept panicked = Unit

  abbrev pub ReplayKept : Replayed B I → Type 0
  ReplayKept (finished s) = P s.gtk s.buffer_flow s.pending_frames
  ReplayKept aborted = Unit

  create-StepKept :
      (guest : ℕ) (child : I) (sender opcode : ℕ) (signature : List ArgumentType)
      (values : ℕ → List WaylandValue) (s : Recovery B I)
      → P s.gtk s.buffer_flow s.pending_frames
      → StepKept (create W guest child sender opcode signature values s)
  unfolding create issue_new map_object
  create-StepKept guest child sender opcode signature values s o =
      elim (Bool-cases (issue_new W sender opcode signature values s).0) [
        | inl written ↦ rw (written, create) o
        | inr not_written ↦ rw (not_written, create) o
      ]

  recreate-StepKept :
      (guest parent : ℕ) (other : Option ℕ) (name : String) (values : ℕ → ℕ → List WaylandValue)
      (s : Recovery B I)
      → P s.gtk s.buffer_flow s.pending_frames
      → StepKept (recreate W guest parent other name values s)
  unfolding recreate
  recreate-StepKept guest parent other name values s o =
      elim (Option-cases (target_of W s.objects parent other name)) [
        | inl missing ↦ rw (missing, recreate) o
        | inr (target, found) ↦ elim (Option-cases target.desc.child_interface) [
          | inl none' ↦ rw (found, none', recreate) tt
          | inr (child, c) ↦
              rw (found, c, recreate)
                (create-StepKept guest child target.parent_host_id target.opcode
                  target.desc.signature (λ new. values new target.other_host_id) s o)
        ]
      ]

  recreate_global-StepKept :
      (globals : Globals) (registry : ℕ) (registry_interface : I) (guest : ℕ) (interface : I)
      (requested : ℕ) (s : Recovery B I)
      → P s.gtk s.buffer_flow s.pending_frames
      → StepKept (recreate_global W globals registry registry_interface guest interface requested s)
  unfolding recreate_global
  recreate_global-StepKept globals registry registry_interface guest interface requested s o =
      elim (Option-cases (found_global (W.protocol.name interface) globals)) [
        | inl missing ↦ rw (missing, recreate_global) o
        | inr ((name, version), found) ↦
            elim (Option-cases (get_elem? (W.protocol.requests registry_interface) 0)) [
              | inl none' ↦ rw (found, none', recreate_global) tt
              | inr (bind, b) ↦
                  rw (found, b, recreate_global)
                    (create-StepKept guest interface registry 0 bind.signature
                      (bind_values W interface name (capped W requested version)) s o)
            ]
      ]

  create_immed-StepKept :
      (guest : ℕ) (params_interface : I) (params : ℕ) (values : ℕ → List WaylandValue)
      (s : Recovery B I)
      → P s.gtk s.buffer_flow s.pending_frames
      → StepKept (create_immed W guest params_interface params values s)
  unfolding create_immed
  create_immed-StepKept guest params_interface params values s o =
      elim (Option-cases (request_named W params_interface "create_immed")) [
        | inl missing ↦ rw (missing, create_immed) o
        | inr ((opcode, desc), found) ↦ elim (Option-cases desc.child_interface) [
          | inl none' ↦ rw (found, none', create_immed) tt
          | inr (child, c) ↦
              rw (found, c, create_immed)
                (create-StepKept guest child params opcode desc.signature values s o)
        ]
      ]

  fill_params-StepKept :
      (guest : ℕ) (params_interface : I) (params : ℕ) (planes : List DmabufPlane)
      (values : ℕ → List WaylandValue) (s : Recovery B I)
      → P s.gtk s.buffer_flow s.pending_frames
      → StepKept (fill_params W guest params_interface params planes values s)
  unfolding fill_params
  fill_params-StepKept guest params_interface params planes values s o =
      elim (Option-cases (request_named W params_interface "add")) [
        | inl missing ↦ rw (missing, fill_params) o
        | inr ((opcode, desc), found) ↦
            elim (Bool-cases (add_planes W params opcode desc.signature planes s.host).0) [
              | inl added ↦
                  rw (found, added, fill_params)
                    (create_immed-StepKept guest params_interface params values _ o)
              | inr not_added ↦ rw (found, not_added, fill_params) o
            ]
      ]

  recreate_dmabuf_buffer-StepKept :
      (guest dmabuf width height format flags : ℕ) (planes : List DmabufPlane) (s : Recovery B I)
      → P s.gtk s.buffer_flow s.pending_frames
      → StepKept (recreate_dmabuf_buffer W guest dmabuf width height format flags planes s)
  unfolding recreate_dmabuf_buffer issue_new
  recreate_dmabuf_buffer-StepKept guest dmabuf width height format flags planes s o =
      elim (Option-cases (target_of W s.objects dmabuf none "create_params")) [
        | inl missing ↦ rw (missing, recreate_dmabuf_buffer) o
        | inr (target, found) ↦ elim (Option-cases target.desc.child_interface) [
          | inl none' ↦ rw (found, none', recreate_dmabuf_buffer) tt
          | inr (child, c) ↦
              elim (Bool-cases
                (issue_new W target.parent_host_id target.opcode target.desc.signature
                  (λ new. WaylandValue.new_id new ∷ []) s).0) [
                    | inl written ↦
                        rw (found, c, written, recreate_dmabuf_buffer)
                          (fill_params-StepKept guest child _ planes
                            (buffer_values width height format flags) _ o)
                    | inr not_written ↦ rw (found, c, not_written, recreate_dmabuf_buffer) o
                  ]
        ]
      ]

  introduce-StepKept :
      (graph : RecreationGraph I) (before : ShadowTable B I) (guest parent : ℕ)
      (title app_id : Option Bytes) (x : Step B I)
      → StepKept x
      → StepKept (introduce W graph before guest parent title app_id x)
  unfolding introduce
  introduce-StepKept graph before guest parent title app_id (skipped s) o = o
  introduce-StepKept graph before guest parent title app_id panicked o = tt
  introduce-StepKept graph before guest parent title app_id (created host child s) o =
      keeps s (present W graph before guest parent title app_id host child s)
        (present-Stays W graph before guest parent title app_id host child s) o

  replay_destination-StepKept :
      (destination : Option (ℕ × ℕ)) (x : Step B I)
      → StepKept x
      → StepKept (replay_destination W destination x)
  unfolding replay_destination
  replay_destination-StepKept none (skipped s) o = o
  replay_destination-StepKept none panicked o = tt
  replay_destination-StepKept none (created host child s) o = o
  replay_destination-StepKept (some d) (skipped s) o = o
  replay_destination-StepKept (some d) panicked o = tt
  replay_destination-StepKept (some (width, height)) (created host child s) o =
      let values = WaylandValue.int width ∷ WaylandValue.int height ∷ [] in
      keeps s (follow_up W host child "set_destination" values s)
        (follow_up-Stays W host child "set_destination" values s) o

  replay_recipe-StepKept :
      (f : Found I) (guest : ℕ) (recipe : Recreatable I) (s : Recovery B I)
      → P s.gtk s.buffer_flow s.pending_frames
      → StepKept (replay_recipe W f guest recipe s)
  unfolding replay_recipe
  replay_recipe-StepKept f guest (global interface version) s o =
      recreate_global-StepKept f.globals f.registry_host_id f.registry_interface guest interface
        version s o
  replay_recipe-StepKept f guest (surface p) s o =
      recreate-StepKept guest p none "create_surface" new_values s o
  replay_recipe-StepKept f guest (xdg_surface p q) s o =
      recreate-StepKept guest p (some q) "get_xdg_surface" new_and_object_values s o
  replay_recipe-StepKept f guest (xdg_toplevel p title app_id) s o =
      introduce-StepKept f.graph s.objects guest p title app_id _
        (recreate-StepKept guest p none "get_toplevel" new_values s o)
  replay_recipe-StepKept f guest (shm_pool p fd size) s o =
      recreate-StepKept guest p none "create_pool" (pool_values fd size) s o
  replay_recipe-StepKept f guest (shm_buffer p offset width height stride format) s o =
      recreate-StepKept guest p none "create_buffer"
        (shm_buffer_values offset width height stride format) s o
  replay_recipe-StepKept f guest (dmabuf_buffer p width height format flags planes) s o =
      recreate_dmabuf_buffer-StepKept guest p width height format flags planes s o
  replay_recipe-StepKept f guest (seat_device p kind) s o =
      recreate-StepKept guest p none (request_name kind) new_values s o
  replay_recipe-StepKept f guest (viewport p q d) s o =
      replay_destination-StepKept d _
        (recreate-StepKept guest p (some q) "get_viewport" new_and_object_values s o)
  replay_recipe-StepKept f guest (fractional_scale p q) s o =
      recreate-StepKept guest p (some q) "get_fractional_scale" new_and_object_values s o

  go_on-ReplayKept :
      (next : Recovery B I → Replayed B I) (x : Step B I)
      → ((s : Recovery B I) → P s.gtk s.buffer_flow s.pending_frames → ReplayKept (next s))
      → StepKept x
      → ReplayKept (go_on W next x)
  unfolding go_on
  go_on-ReplayKept next (skipped s) ih o = ih s o
  go_on-ReplayKept next (created host child s) ih o = ih s o
  go_on-ReplayKept next panicked ih o = tt

  pub replay-ReplayKept :
      (f : Found I) (m : List (ℕ × Recreatable I)) (s : Recovery B I)
      → P s.gtk s.buffer_flow s.pending_frames
      → ReplayKept (replay W f m s)
  unfolding replay
  replay-ReplayKept f [] s o = o
  replay-ReplayKept f ((guest, recipe) ∷ rest) s o =
      go_on-ReplayKept (λ t. replay W f rest t) (replay_recipe W f guest recipe s)
        (replay-ReplayKept f rest) (replay_recipe-StepKept f guest recipe s o)
