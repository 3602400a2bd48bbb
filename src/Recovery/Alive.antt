-- ===== src/Recovery/Alive.antt =====
-- src/lib.rs: when a recipe makes its object, in `recover_state_after_reconnect`.
use Prim.Native.String.{String}
use wl_resprox.Prelude.{
  ℕ, ◌≡◌, refl, true, List, [], ◌∷◌, Option, none, some, All, inl, inr, get_elem?,
}
use wl_resprox.Wire.Words.{Bytes}
use wl_resprox.Wire.Encode.{ArgumentType, WaylandValue}
use wl_resprox.Wire.Encode.Typed.{well_typed, encode_arguments_total}
use wl_resprox.Protocol.{MessageDesc}
use wl_resprox.Shadow.Table.{ShadowTable, host_id, interface}
use wl_resprox.Recreation.Graph.{RecreationGraph, DmabufPlane}
use wl_resprox.Relay.Session.{World}
use wl_resprox.Connection.Line.{Line}
use wl_resprox.Recovery.State.{Recovery, Step, created, request_named, issue}
use wl_resprox.Recovery.Registry.{Globals, found_global}
use wl_resprox.Recovery.Recreate.{
  bind_values, new_values, target_of, issue_new, other_host, map_object, create, recreate,
  recreate_global, replay_destination, capped, follow_up,
}
use wl_resprox.Recovery.Dmabuf.{
  plane_values, buffer_values, add_planes, create_immed, fill_params, recreate_dmabuf_buffer,
}
use wl_resprox.Recovery.Toplevel.{present, introduce}
use wl_resprox.Recovery.Unfailing.{send-answers}
use wl_resprox.Recovery.Stays.{issue-answers, follow_up-Stays, present-Stays}

module _ {B I : Type 0} (W : World B I) where
  -- The interface has a request of this name, whose signature these values match.
  abbrev pub Requests : I → String → (MessageDesc I → Type 0) → Type 0
  Requests iface name P =
      (opcode : ℕ) × (desc : MessageDesc I) × (request_named W iface name ≡ some (opcode, desc))
      × P desc

  -- The same for a request that makes an object of an interface.
  abbrev pub Offers : I → String → (ℕ → ℕ → List WaylandValue) → I → Type 0
  Offers iface name values child = Requests iface name (λ desc.
      (desc.child_interface ≡ some child)
      × ((new other : ℕ) → well_typed desc.signature (values new other) ≡ true))

  -- All writes to the host succeed.
  abbrev pub Open : Recovery B I → Type 0
  Open s = s.host.conn.answers ≡ []

  -- The step made an object of this interface, and writes still succeed.
  abbrev pub Made : I → Step B I → Type 0
  Made child x = (host : ℕ) × (s : Recovery B I) × (x ≡ created host child s) × Open s

  issue-written :
      (line : Line) (sender opcode : ℕ) (signature : List ArgumentType) (values : List WaylandValue)
      → line.conn.answers ≡ []
      → well_typed signature values ≡ true
      → (issue W line sender opcode signature values).0 ≡ true
  unfolding issue
  issue-written line sender opcode signature values h typed =
      elim (encode_arguments_total W.endian signature values) [
        | inl (yes', encoded) ↦ rw (encoded, issue) (send-answers line _ _ h).0
        | inr (no', failed) ↦ absurd (cc)
      ]

  create-Made :
      (guest : ℕ) (child : I) (sender opcode : ℕ) (signature : List ArgumentType)
      (values : ℕ → List WaylandValue) (s : Recovery B I)
      → Open s
      → ((new : ℕ) → well_typed signature (values new) ≡ true)
      → Made child (create W guest child sender opcode signature values s)
  unfolding create issue_new map_object
  create-Made guest child sender opcode signature values s h typed =
      let new : ℕ = s.objects.next_host_id in
      let written = issue-written s.host sender opcode signature (values new) h (typed new) in
      let open' = issue-answers W s.host sender opcode signature (values new) h in
      rw (written, create) (new, _, refl, open')

  -- Whether another object translates, if there is one.
  abbrev pub OtherAlive : ShadowTable B I → Option ℕ → Type 0
  OtherAlive t other = (h : ℕ) × (other_host W t other ≡ some h)

  pub recreate-Made :
      (guest parent : ℕ) (other : Option ℕ) (name : String) (values : ℕ → ℕ → List WaylandValue)
      (iface child : I) (s : Recovery B I)
      → Open s
      → Offers iface name values child
      → interface W.protocol W.ids s.objects parent ≡ some iface
      → ((h : ℕ) × (host_id W.protocol W.ids s.objects parent ≡ some h))
      → OtherAlive s.objects other
      → Made child (recreate W guest parent other name values s)
  unfolding recreate target_of
  recreate-Made guest parent other name values iface child s open'
        (opcode, desc, named, (makes, typed)) known (host, at) (host', at') =
      rw (known, at, at', named, recreate, makes)
        (create-Made guest child host opcode desc.signature (λ new. values new host') s open'
          (λ new. typed new host'))

  -- The new compositor offers the global, and its registry's first request takes what `bind` sends.
  abbrev pub Binds : Globals → I → I → Type 0
  Binds globals registry_interface iface =
      (offer : ℕ × ℕ) × (bind : MessageDesc I) × (found_global (W.protocol.name iface) globals
        ≡ some offer)
      × (get_elem? (W.protocol.requests registry_interface) 0 ≡ some bind)
      × ((name version new : ℕ)
          → well_typed bind.signature (bind_values W iface name version new) ≡ true)

  pub recreate_global-Made :
      (globals : Globals) (registry : ℕ) (registry_interface : I) (guest : ℕ) (iface : I)
      (requested : ℕ) (s : Recovery B I)
      → Open s
      → Binds globals registry_interface iface
      → Made iface (recreate_global W globals registry registry_interface guest iface requested s)
  unfolding recreate_global
  recreate_global-Made globals registry registry_interface guest iface requested s open'
        ((name, version), bind, found, first, typed) =
      rw (found, first, recreate_global)
        (create-Made guest iface registry 0 bind.signature
          (bind_values W iface name (capped W requested version)) s open'
          (λ new. typed name (capped W requested version) new))

  add_planes-written :
      (params opcode : ℕ) (signature : List ArgumentType) (planes : List DmabufPlane) (line : Line)
      → line.conn.answers ≡ []
      → All (λ plane. well_typed signature (plane_values plane) ≡ true) planes
      → ((add_planes W params opcode signature planes line).0 ≡ true)
        × ((add_planes W params opcode signature planes line).1.conn.answers ≡ [])
  unfolding add_planes
  add_planes-written params opcode signature [] line h typed = (refl, h)
  add_planes-written params opcode signature (plane ∷ rest) line h (typed, more) =
      let written = issue-written line params opcode signature (plane_values plane) h typed in
      let line' : Line = (issue W line params opcode signature (plane_values plane)).1 in
      rw (written, add_planes)
        (add_planes-written params opcode signature rest line'
          (issue-answers W line params opcode signature (plane_values plane) h) more)

  -- What the recipe of a dmabuf buffer takes: a params object, whose requests take the planes and the
  -- buffer.
  abbrev pub OffersBuffer : I → I → List DmabufPlane → (ℕ → List WaylandValue) → I → Type 0
  OffersBuffer iface params_interface planes values child =
      Offers iface "create_params" new_values params_interface
      × Requests params_interface "add"
          (λ desc. All (λ plane. well_typed desc.signature (plane_values plane) ≡ true) planes)
      × Offers params_interface "create_immed" (λ new other. values new) child

  create_immed-Made :
      (guest : ℕ) (params_interface child : I) (params : ℕ) (values : ℕ → List WaylandValue)
      (s : Recovery B I)
      → Open s
      → Offers params_interface "create_immed" (λ new other. values new) child
      → Made child (create_immed W guest params_interface params values s)
  unfolding create_immed
  create_immed-Made guest params_interface child params values s open'
        (opcode, desc, named, (makes, typed)) =
      rw (named, makes, create_immed)
        (create-Made guest child params opcode desc.signature values s open' (λ new. typed new 0))

  fill_params-Made :
      (guest : ℕ) (params_interface child : I) (params : ℕ) (planes : List DmabufPlane)
      (values : ℕ → List WaylandValue) (s : Recovery B I)
      → Open s
      → Requests params_interface "add"
          (λ desc. All (λ plane. well_typed desc.signature (plane_values plane) ≡ true) planes)
      → Offers params_interface "create_immed" (λ new other. values new) child
      → Made child (fill_params W guest params_interface params planes values s)
  unfolding fill_params
  fill_params-Made guest params_interface child params planes values s open'
        (opcode, desc, named, typed) offers =
      let (added, open'') =
        add_planes-written params opcode desc.signature planes s.host open' typed in
      rw (named, fill_params, added)
        (create_immed-Made guest params_interface child params values _ open'' offers)

  pub recreate_dmabuf_buffer-Made :
      (guest dmabuf width height format flags : ℕ) (planes : List DmabufPlane)
      (iface params_interface child : I) (s : Recovery B I)
      → Open s
      → OffersBuffer iface params_interface planes (buffer_values width height format flags) child
      → interface W.protocol W.ids s.objects dmabuf ≡ some iface
      → ((h : ℕ) × (host_id W.protocol W.ids s.objects dmabuf ≡ some h))
      → Made child (recreate_dmabuf_buffer W guest dmabuf width height format flags planes s)
  unfolding recreate_dmabuf_buffer target_of other_host issue_new
  recreate_dmabuf_buffer-Made guest dmabuf width height format flags planes iface params_interface
        child s open' ((opcode, desc, named, (makes, typed)), adds, immed) known (host, at) =
      let new : ℕ = s.objects.next_host_id in
      let written =
        issue-written s.host host opcode desc.signature (WaylandValue.new_id new ∷ []) open'
          (typed new 0) in
      let open'' =
        issue-answers W s.host host opcode desc.signature (WaylandValue.new_id new ∷ []) open' in
      rw (known, at, named, recreate_dmabuf_buffer, makes, written)
        (fill_params-Made guest params_interface child new planes
          (buffer_values width height format flags) _ open'' adds immed)

  pub introduce-Made :
      (graph : RecreationGraph I) (before : ShadowTable B I) (guest parent : ℕ)
      (title app_id : Option Bytes) (child : I) (x : Step B I)
      → Made child x
      → Made child (introduce W graph before guest parent title app_id x)
  unfolding introduce
  introduce-Made graph before guest parent title app_id child x (host, s, is, open') =
      rw (is, introduce)
        (
          host,
          present W graph before guest parent title app_id host child s,
          refl,
          (present-Stays W graph before guest parent title app_id host child s).1 open',
        )

  pub replay_destination-Made :
      (destination : Option (ℕ × ℕ)) (child : I) (x : Step B I)
      → Made child x
      → Made child (replay_destination W destination x)
  unfolding replay_destination
  replay_destination-Made none child x (host, s, is, open') =
      rw (is, replay_destination) (host, s, refl, open')
  replay_destination-Made (some (width, height)) child x (host, s, is, open') =
      let values : List WaylandValue = WaylandValue.int width ∷ WaylandValue.int height ∷ [] in
      rw (is, replay_destination)
        (
          host,
          follow_up W host child "set_destination" values s,
          refl,
          (follow_up-Stays W host child "set_destination" values s).1 open',
        )
