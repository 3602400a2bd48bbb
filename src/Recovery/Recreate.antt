-- ===== src/Recovery/Recreate.antt =====
-- src/lib.rs: the recipes that take one request, in `recover_state_after_reconnect`.
use Prim.Native.String.{String}
use wl_resprox.Prelude.{ℕ, Bool, List, [], ◌∷◌, Option, none, some, if◌then◌else◌, leb, get_elem?}
use wl_resprox.Wire.Encode.{ArgumentType, WaylandValue}
use wl_resprox.Protocol.{MessageDesc}
use wl_resprox.Shadow.Table.{ShadowTable, allocate_host_id, host_id, interface, map_ids}
use wl_resprox.Interfaces.{codes}
use wl_resprox.Recreation.Graph.{SeatDeviceKind, request_name}
use wl_resprox.Relay.Session.{World}
use wl_resprox.Relay.Capture.{◌>>=◌}
use wl_resprox.Recovery.State.{Recovery, Step, skipped, created, panicked, request_named, issue}
use wl_resprox.Recovery.Registry.{Globals, found_global}

-- Where a request goes: the parent's host id, that of the other object that the request names, or 0
-- if it names none, the opcode and its entry.
pub record Target (I : Type 0) : Type 0 where
  pub parent_host_id : ℕ
  pub other_host_id : ℕ
  pub opcode : ℕ
  pub desc : MessageDesc I

-- The arguments of the requests, by the new host id and that of the other object.
abbrev pub new_values : ℕ → ℕ → List WaylandValue
new_values new other = WaylandValue.new_id new ∷ []

abbrev pub new_and_object_values : ℕ → ℕ → List WaylandValue
new_and_object_values new other = WaylandValue.new_id new ∷ WaylandValue.object other ∷ []

abbrev pub pool_values : ℕ → ℕ → ℕ → ℕ → List WaylandValue
pool_values fd size new other =
    WaylandValue.new_id new ∷ WaylandValue.fd fd ∷ WaylandValue.int size ∷ []

abbrev pub shm_buffer_values : ℕ → ℕ → ℕ → ℕ → ℕ → ℕ → ℕ → List WaylandValue
shm_buffer_values offset width height stride format new other =
    WaylandValue.new_id new
    ∷ WaylandValue.int offset
    ∷ WaylandValue.int width
    ∷ WaylandValue.int height
    ∷ WaylandValue.int stride
    ∷ WaylandValue.uint format
    ∷ []

module _ {B I : Type 0} (W : World B I) where
  unfoldable pub other_host : ShadowTable B I → Option ℕ → Option ℕ
  unfolding host_id
  other_host objects none = some 0
  other_host objects (some other) = host_id W.protocol W.ids objects other

  -- The guards in front of a request: a known parent, host ids for it and for the other object, and
  -- a request of this name.
  unfoldable pub target_of : ShadowTable B I → ℕ → Option ℕ → String → Option (Target I)
  unfolding interface host_id other_host request_named
  target_of objects parent other name = do
    parent_interface ← interface W.protocol W.ids objects parent
    parent_host_id ← host_id W.protocol W.ids objects parent
    other_host_id ← other_host objects other
    (opcode, desc) ← request_named W parent_interface name
    some (record {
      parent_host_id = parent_host_id;
      other_host_id = other_host_id;
      opcode = opcode;
      desc = desc;
    })

  -- A request that makes a new object: its host id is allocated and stays so if the request fails.
  unfoldable pub issue_new :
      ℕ → ℕ → List ArgumentType → (ℕ → List WaylandValue) → Recovery B I → Bool × ℕ × Recovery B I
  unfolding allocate_host_id issue
  issue_new sender opcode signature values s =
      let (new, objects') = allocate_host_id W.protocol W.ids s.objects in
      let (ok, host') = issue W s.host sender opcode signature (values new) in
      (ok, new, record s { host = host'; objects = objects' })

  -- `objects.map(guest_id, host_id, child_interface)`.
  unfoldable pub map_object : ℕ → ℕ → I → Recovery B I → Recovery B I
  unfolding map_ids
  map_object guest new child s = record s {
    objects = map_ids W.protocol W.ids s.objects guest new child;
  }

  unfoldable pub create :
      ℕ → I → ℕ → ℕ → List ArgumentType → (ℕ → List WaylandValue) → Recovery B I → Step B I
  unfolding issue_new map_object
  create guest child sender opcode signature values s =
      let (ok, new, s') = issue_new sender opcode signature values s in
      if ok then created new child (map_object guest new child s') else skipped s'

  -- `values` is handed the new host id and that of the other object.
  unfoldable pub recreate :
      ℕ → ℕ → Option ℕ → String → (ℕ → ℕ → List WaylandValue) → Recovery B I → Step B I
  unfolding target_of create
  recreate guest parent other name values s = elim (target_of s.objects parent other name) [
    | none ↦ skipped s
    | some target ↦ elim target.desc.child_interface [
      | none ↦ panicked
      | some child ↦
          create guest child target.parent_host_id target.opcode target.desc.signature
            (λ new. values new target.other_host_id) s
    ]
  ]

  -- `min`.
  unfoldable pub capped : ℕ → ℕ → ℕ
  capped requested_version fresh_max_version =
      if leb requested_version fresh_max_version then requested_version else fresh_max_version

  abbrev pub bind_values : I → ℕ → ℕ → ℕ → List WaylandValue
  bind_values interface name version new =
      WaylandValue.uint name
      ∷ WaylandValue.string (codes (W.protocol.name interface))
      ∷ WaylandValue.uint version
      ∷ WaylandValue.new_id new
      ∷ []

  -- Bound at the version that the client asked for, or the highest on offer if that is lower.
  unfoldable pub recreate_global : Globals → ℕ → I → ℕ → I → ℕ → Recovery B I → Step B I
  unfolding found_global capped create
  recreate_global globals registry_host_id registry_interface guest interface requested_version s =
      elim (found_global (W.protocol.name interface) globals) [
        | none ↦ skipped s
        | some (name, fresh_max_version) ↦
            elim (get_elem? (W.protocol.requests registry_interface) 0) [
              | none ↦ panicked
              | some bind ↦
                  create guest interface registry_host_id 0 bind.signature
                    (bind_values interface name (capped requested_version fresh_max_version)) s
            ]
      ]

  unfoldable pub recreate_surface : ℕ → ℕ → Recovery B I → Step B I
  unfolding recreate
  recreate_surface guest parent = recreate guest parent none "create_surface" new_values

  unfoldable pub recreate_xdg_surface : ℕ → ℕ → ℕ → Recovery B I → Step B I
  unfolding recreate
  recreate_xdg_surface guest parent surface =
      recreate guest parent (some surface) "get_xdg_surface" new_and_object_values

  -- The recipe keeps its descriptor: the message carries a copy.
  unfoldable pub recreate_shm_pool : ℕ → ℕ → ℕ → ℕ → Recovery B I → Step B I
  unfolding recreate
  recreate_shm_pool guest wl_shm fd size =
      recreate guest wl_shm none "create_pool" (pool_values fd size)

  unfoldable pub recreate_shm_buffer : ℕ → ℕ → ℕ → ℕ → ℕ → ℕ → ℕ → Recovery B I → Step B I
  unfolding recreate
  recreate_shm_buffer guest pool offset width height stride format =
      recreate guest pool none "create_buffer" (shm_buffer_values offset width height stride format)

  unfoldable pub recreate_seat_device : ℕ → ℕ → SeatDeviceKind → Recovery B I → Step B I
  unfolding recreate request_name
  recreate_seat_device guest seat kind = recreate guest seat none (request_name kind) new_values

  unfoldable pub recreate_fractional_scale : ℕ → ℕ → ℕ → Recovery B I → Step B I
  unfolding recreate
  recreate_fractional_scale guest manager surface =
      recreate guest manager (some surface) "get_fractional_scale" new_and_object_values

  -- A request on an object just made; an error is only logged.
  unfoldable pub follow_up : ℕ → I → String → List WaylandValue → Recovery B I → Recovery B I
  unfolding request_named issue
  follow_up host child name values s = elim (request_named W child name) [
    | none ↦ s
    | some (opcode, desc) ↦ record s { host = (issue W s.host host opcode desc.signature values).1 }
  ]

  unfoldable pub replay_destination : Option (ℕ × ℕ) → Step B I → Step B I
  unfolding follow_up
  replay_destination (some (width, height)) (created host child s) = created host child (
      follow_up host child "set_destination" (WaylandValue.int width ∷ WaylandValue.int height ∷ [])
        s)
  replay_destination _ step = step

  unfoldable pub recreate_viewport : ℕ → ℕ → ℕ → Option (ℕ × ℕ) → Recovery B I → Step B I
  unfolding recreate replay_destination
  recreate_viewport guest viewporter surface destination s =
      replay_destination destination
        (recreate guest viewporter (some surface) "get_viewport" new_and_object_values s)
