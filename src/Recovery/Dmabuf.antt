-- ===== src/Recovery/Dmabuf.antt =====
-- src/lib.rs: the recipe of a dmabuf buffer, in `recover_state_after_reconnect`.
use wl_resprox.Prelude.{ℕ, ◌/◌, ◌%◌, ◌^◌, Bool, true, List, [], ◌∷◌, none, some, if◌then◌else◌}
use wl_resprox.Wire.Encode.{ArgumentType, WaylandValue}
use wl_resprox.Recreation.Graph.{DmabufPlane}
use wl_resprox.Relay.Session.{World}
use wl_resprox.Connection.Line.{Line}
use wl_resprox.Recovery.State.{Recovery, Step, skipped, panicked, request_named, issue}
use wl_resprox.Recovery.Recreate.{target_of, issue_new, create}

-- `add`: the modifier goes as its high and its low word.
unfoldable pub plane_values : DmabufPlane → List WaylandValue
plane_values plane =
    WaylandValue.fd plane.fd
    ∷ WaylandValue.uint plane.plane_idx
    ∷ WaylandValue.uint plane.offset
    ∷ WaylandValue.uint plane.stride
    ∷ WaylandValue.uint (plane.modifier / 2 ^ 32 % 2 ^ 32)
    ∷ WaylandValue.uint (plane.modifier % 2 ^ 32)
    ∷ []

-- `create_immed`.
abbrev pub buffer_values : ℕ → ℕ → ℕ → ℕ → ℕ → List WaylandValue
buffer_values width height format flags new =
    WaylandValue.new_id new
    ∷ WaylandValue.int width
    ∷ WaylandValue.int height
    ∷ WaylandValue.uint format
    ∷ WaylandValue.uint flags
    ∷ []

module _ {B I : Type 0} (W : World B I) where
  -- The loop over the planes stops at the first error: whether it had none.
  unfoldable pub add_planes : ℕ → ℕ → List ArgumentType → List DmabufPlane → Line → Bool × Line
  unfolding issue plane_values
  add_planes params opcode signature [] host = (true, host)
  add_planes params opcode signature (plane ∷ rest) host =
      let (ok, host') = issue W host params opcode signature (plane_values plane) in
      let others = add_planes params opcode signature rest host' in
      if ok then others else (ok, host')

  -- With the planes added: `create_immed`.
  unfoldable pub create_immed : ℕ → I → ℕ → (ℕ → List WaylandValue) → Recovery B I → Step B I
  unfolding request_named create
  create_immed guest params_interface params values s =
      elim (request_named W params_interface "create_immed") [
        | none ↦ skipped s
        | some (opcode, desc) ↦ elim desc.child_interface [
          | none ↦ panicked
          | some wl_buffer ↦ create W guest wl_buffer params opcode desc.signature values s
        ]
      ]

  -- With the params object made: `add` for each plane.
  unfoldable pub fill_params :
      ℕ → I → ℕ → List DmabufPlane → (ℕ → List WaylandValue) → Recovery B I → Step B I
  unfolding request_named add_planes create_immed
  fill_params guest params_interface params planes values s =
      elim (request_named W params_interface "add") [
        | none ↦ skipped s
        | some (opcode, desc) ↦
            let (added, host') = add_planes params opcode desc.signature planes s.host in
            let s' = record s { host = host' } in
            if added then create_immed guest params_interface params values s' else skipped s'
      ]

  -- The params object has a host id, yet is never mapped: it is used once.
  unfoldable pub recreate_dmabuf_buffer :
      ℕ → ℕ → ℕ → ℕ → ℕ → ℕ → List DmabufPlane → Recovery B I → Step B I
  unfolding target_of issue_new fill_params
  recreate_dmabuf_buffer guest dmabuf width height format flags planes s =
      elim (target_of W s.objects dmabuf none "create_params") [
        | none ↦ skipped s
        | some target ↦ elim target.desc.child_interface [
          | none ↦ panicked
          | some params_interface ↦
              let (ok, params, s') =
                issue_new W target.parent_host_id target.opcode target.desc.signature
                  (λ new. WaylandValue.new_id new ∷ []) s in
              if ok
              then fill_params guest params_interface params planes
                  (buffer_values width height format flags) s'
              else skipped s'
        ]
      ]
