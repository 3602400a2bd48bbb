-- ===== src/Recovery/Liveness.antt =====
-- src/lib.rs: replay in `recover_state_after_reconnect` makes every object that can be made.
use wl_resprox.Prelude.{
  ℕ, suc, ◌+◌, ◌*◌, ◌^◌, ◌<◌, ◌≡◌, ◌≢◌, refl, ◌∙◌, ap, true, List, [], ◌∷◌, none, some, arith,
  length, if◌then◌else◌, ◌==◌, inl, inr, Bool-cases, ==_iff, ==_self,
}
use wl_resprox.Prelude.Map.{contains}
use wl_resprox.Shadow.Table.{ShadowTable, host_id, interface}
use wl_resprox.Shadow.Translate.{interface-map_ids}
use wl_resprox.Recreation.Graph.{
  Recreatable, global, surface, xdg_surface, xdg_toplevel, shm_pool, shm_buffer, dmabuf_buffer,
  seat_device, viewport, fractional_scale, request_name,
}
use wl_resprox.Recreation.Order.{AllIn, InOrder, parents, ids_after}
use wl_resprox.Relay.Session.{World}
use wl_resprox.Recovery.State.{Recovery, Step, created}
use wl_resprox.Recovery.Recreate.{
  new_values, new_and_object_values, pool_values, shm_buffer_values, other_host,
}
use wl_resprox.Recovery.Dmabuf.{buffer_values}
use wl_resprox.Recovery.Replay.{Found, Replayed, finished, replay_recipe, go_on, replay}
use wl_resprox.Recovery.Growth.{advance, Grown, replay_recipe-Grown}
use wl_resprox.Recovery.Keeps.{interface-advance, Fresh, Grown-Keeps, created_host_id}
use wl_resprox.Recovery.Alive.{
  Offers, OffersBuffer, Binds, Open, Made, recreate-Made, recreate_global-Made,
  recreate_dmabuf_buffer-Made, introduce-Made, replay_destination-Made,
}

-- `kind` gives the interface that each guest id is to have.
module _ {B I : Type 0} (W : World B I) (f : Found I) (kind : ℕ → I) where
  -- The protocol and the new compositor have what the recipe for this id needs: its request exists on
  -- its parent's interface, takes the arguments that the recipe sends, and makes an object of the id's
  -- own interface; or its global is on offer.
  abbrev pub Fits : ℕ → Recreatable I → Type 0
  Fits guest (global iface version) =
      (kind guest ≡ iface) × Binds W f.globals f.registry_interface iface
  Fits guest (surface p) = Offers W (kind p) "create_surface" new_values (kind guest)
  Fits guest (xdg_surface p o) =
      Offers W (kind p) "get_xdg_surface" new_and_object_values (kind guest)
  Fits guest (xdg_toplevel p title app_id) =
      Offers W (kind p) "get_toplevel" new_values (kind guest)
  Fits guest (shm_pool p fd size) =
      Offers W (kind p) "create_pool" (pool_values fd size) (kind guest)
  Fits guest (shm_buffer p offset width height stride format) =
      Offers W (kind p) "create_buffer" (shm_buffer_values offset width height stride format)
        (kind guest)
  Fits guest (dmabuf_buffer p width height format flags planes) =
      (params : I) × OffersBuffer W (kind p) params planes (buffer_values width height format flags)
        (kind guest)
  Fits guest (seat_device p device) =
      Offers W (kind p) (request_name device) new_values (kind guest)
  Fits guest (viewport p o destination) =
      Offers W (kind p) "get_viewport" new_and_object_values (kind guest)
  Fits guest (fractional_scale p o) =
      Offers W (kind p) "get_fractional_scale" new_and_object_values (kind guest)

  -- Each recipe fits, and none is for the null object.
  abbrev pub AllFit : List (ℕ × Recreatable I) → Type 0
  AllFit [] = Unit
  AllFit ((guest, recipe) ∷ rest) = (guest ≢ 0) × Fits guest recipe × AllFit rest

  -- The object is not null, translates, and has its interface.
  abbrev pub IsAlive : ShadowTable B I → ℕ → Type 0
  IsAlive t k =
      (k ≢ 0)
      × ((h : ℕ) × (host_id W.protocol W.ids t k ≡ some h))
      × (interface W.protocol W.ids t k ≡ some (kind k))

  abbrev pub AllAlive : List ℕ → ShadowTable B I → Type 0
  AllAlive seen t = (k : ℕ) → contains k seen ≡ true → IsAlive t k

  replay_recipe-Made :
      (seen : List ℕ) (guest : ℕ) (recipe : Recreatable I) (s : Recovery B I)
      → Open W s
      → Fits guest recipe
      → AllIn seen (parents recipe)
      → AllAlive seen s.objects
      → Made W (kind guest) (replay_recipe W f guest recipe s)
  unfolding replay_recipe parents other_host
  replay_recipe-Made seen guest (global iface version) s open' (same, fits) known alive = rw same (
      recreate_global-Made W f.globals f.registry_host_id f.registry_interface guest iface version s
        open' fits)
  replay_recipe-Made seen guest (surface p) s open' fits (known0, end) alive =
      recreate-Made W guest p none "create_surface" new_values (kind p) (kind guest) s open' fits
        (alive p known0).2 (alive p known0).1 (0, refl)
  replay_recipe-Made seen guest (xdg_surface p o) s open' fits (known0, (known1, end)) alive =
      recreate-Made W guest p (some o) "get_xdg_surface" new_and_object_values (kind p) (kind guest)
        s open' fits (alive p known0).2 (alive p known0).1 (alive o known1).1
  replay_recipe-Made seen guest (xdg_toplevel p title app_id) s open' fits (known0, end) alive =
      introduce-Made W f.graph s.objects guest p title app_id (kind guest) _ (
        recreate-Made W guest p none "get_toplevel" new_values (kind p) (kind guest) s open' fits
          (alive p known0).2 (alive p known0).1 (0, refl))
  replay_recipe-Made seen guest (shm_pool p fd size) s open' fits (known0, end) alive =
      recreate-Made W guest p none "create_pool" (pool_values fd size) (kind p) (kind guest) s open'
        fits (alive p known0).2 (alive p known0).1 (0, refl)
  replay_recipe-Made seen guest (shm_buffer p offset width height stride format) s open' fits
        (known0, end) alive =
      recreate-Made W guest p none "create_buffer"
        (shm_buffer_values offset width height stride format) (kind p) (kind guest) s open' fits
        (alive p known0).2 (alive p known0).1 (0, refl)
  replay_recipe-Made seen guest (dmabuf_buffer p width height format flags planes) s open'
        (params, fits) (known0, end) alive =
      recreate_dmabuf_buffer-Made W guest p width height format flags planes (kind p) params
        (kind guest) s open' fits (alive p known0).2 (alive p known0).1
  replay_recipe-Made seen guest (seat_device p device) s open' fits (known0, end) alive =
      recreate-Made W guest p none (request_name device) new_values (kind p) (kind guest) s open'
        fits (alive p known0).2 (alive p known0).1 (0, refl)
  replay_recipe-Made seen guest (viewport p o destination) s open' fits (known0, (known1, end))
        alive =
      replay_destination-Made W destination (kind guest) _ (
        recreate-Made W guest p (some o) "get_viewport" new_and_object_values (kind p) (kind guest)
          s open' fits (alive p known0).2 (alive p known0).1 (alive o known1).1)
  replay_recipe-Made seen guest (fractional_scale p o) s open' fits (known0, (known1, end)) alive =
      recreate-Made W guest p (some o) "get_fractional_scale" new_and_object_values (kind p)
        (kind guest) s open' fits (alive p known0).2 (alive p known0).1 (alive o known1).1

  -- The interface of an object after a step that made one.
  created-interface :
      (guest host k : ℕ) (t : ShadowTable B I) (child : I) (s : Recovery B I)
      → Grown W 2 guest t (created host child s)
      → interface W.protocol W.ids s.objects k
        ≡ (if k == guest then some child else interface W.protocol W.ids t k)
  created-interface guest host k t child s (n, few, last, same) = rw same (
      interface-map_ids W.protocol W.ids (advance W (suc n) t) guest host k child
      ∙ ap (λ o. if k == guest then some child else o) (interface-advance W (suc n) t k))

  -- A step that made its object leaves it and all that were alive alive.
  created-AllAlive :
      (seen : List ℕ) (guest host : ℕ) (t : ShadowTable B I) (s : Recovery B I)
      → guest ≢ 0
      → Fresh W t
      → t.next_host_id + 2 < 2 ^ 32
      → AllAlive seen t
      → Grown W 2 guest t (created host (kind guest) s)
      → AllAlive (guest ∷ seen) s.objects
  unfolding contains
  created-AllAlive seen guest host t s nz fresh bound alive grown k known =
      let (fresh', few, keeps) =
        Grown-Keeps W 2 guest t (created host (kind guest) s) grown fresh bound in
      let typed = created-interface guest host k t (kind guest) s grown in
      elim (Bool-cases (k == guest)) [
        | inl same ↦
            let is : k ≡ guest = (==_iff k guest).0 same in
            let at = created_host_id W 2 guest host t (kind guest) s nz grown fresh bound in
            rw is (
              nz,
              (host, at),
              created-interface guest host guest t (kind guest) s grown ∙ rw (==_self guest) refl,
            )
        | inr other ↦
            let (nz', (h, at), typed') = alive k (ground arith) in
            (nz', (h, keeps k h nz' (ground arith) at), typed ∙ rw other typed')
      ]

  -- Everything that replay is to make, given what is alive before it.
  abbrev Completes : List ℕ → List (ℕ × Recreatable I) → (Recovery B I → Replayed B I) → Type 0
  Completes seen m next =
      (s : Recovery B I)
      → Open W s
      → Fresh W s.objects
      → s.objects.next_host_id + 2 * length m < 2 ^ 32
      → AllAlive seen s.objects
      → (s' : Recovery B I) × (next s ≡ finished s') × AllAlive (ids_after seen m) s'.objects

  go_on-Completes :
      (seen : List ℕ) (guest : ℕ) (recipe : Recreatable I) (rest : List (ℕ × Recreatable I))
      (next : Recovery B I → Replayed B I) (t : ShadowTable B I) (x : Step B I)
      → Completes (guest ∷ seen) rest next
      → guest ≢ 0
      → Fresh W t
      → t.next_host_id + 2 * suc (length rest) < 2 ^ 32
      → AllAlive seen t
      → Grown W 2 guest t x
      → Made W (kind guest) x
      → (s' : Recovery B I) × (go_on W next x ≡ finished s')
        × AllAlive (ids_after (guest ∷ seen) rest) s'.objects
  unfolding go_on
  go_on-Completes seen guest recipe rest next t x ih nz fresh bound alive grown
        (host, s, is, open') =
      let made : Grown W 2 guest t (created host (kind guest) s) = rw is at grown in
      let (fresh', few, keeps) =
        Grown-Keeps W 2 guest t (created host (kind guest) s) made fresh (omega arith) in
      let (s', finishes, alive') =
        ih s open' fresh' (omega arith)
          (created-AllAlive seen guest host t s nz fresh (omega arith) alive made) in
      (s', rw (is, go_on) finishes, alive')

  replay-Completes :
      (seen : List ℕ) (m : List (ℕ × Recreatable I))
      → InOrder seen m
      → AllFit m
      → Completes seen m (replay W f m)
  unfolding replay ids_after
  replay-Completes seen [] order fit s open' fresh bound alive = (s, refl, alive)
  replay-Completes seen ((guest, recipe) ∷ rest) (known, order) (nz, fits, fit) s open' fresh bound
        alive =
      go_on-Completes seen guest recipe rest (λ t. replay W f rest t) s.objects
        (replay_recipe W f guest recipe s) (replay-Completes (guest ∷ seen) rest order fit) nz fresh
        bound alive (replay_recipe-Grown W f guest recipe s)
        (replay_recipe-Made seen guest recipe s open' fits known alive)

  -- If every recipe stands behind its parents, as `record` leaves them, and fits the protocol and the
  -- new compositor's globals, the writes to the compositor succeed, every host id in use was given
  -- out and there are enough left for two to each recipe, then replay finishes, and every object that
  -- has a recipe translates to a host id and has the interface of its kind.
  pub replay-alive :
      (s : Recovery B I)
      → InOrder [] f.graph.recipes
      → AllFit f.graph.recipes
      → Open W s
      → Fresh W s.objects
      → s.objects.next_host_id + 2 * length f.graph.recipes < 2 ^ 32
      → (s' : Recovery B I) × (replay W f f.graph.recipes s ≡ finished s')
        × AllAlive (ids_after [] f.graph.recipes) s'.objects
  unfolding contains
  replay-alive s order fit open' fresh bound =
      replay-Completes [] f.graph.recipes order fit s open' fresh bound (λ k known. absurd (cc))
