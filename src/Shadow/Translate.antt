-- ===== src/Shadow/Translate.antt =====
-- src/shadow_table.rs: how the operations change what translates to what.
use wl_resprox.Prelude.{ℕ, ◌≡◌, ◌≢◌, ◌↔◌, none, some, if◌then◌else◌, ◌==◌, arith}
use wl_resprox.Prelude.Map.{get-insert, get-remove}
use wl_resprox.Protocol.{Protocol}
use wl_resprox.Shadow.BiMap.{BiMap, is_some_of}
use wl_resprox.Shadow.Table.{ShadowTable, map_ids, remove_guest, host_id, guest_id, interface}

module _ {B I : Type 0} (P : Protocol I) (M : BiMap B) where
  host_id-guest_id :
      (t : ShadowTable B I) (g h : ℕ) → h ≢ 0 → host_id P M t g ≡ some h → guest_id P M t h ≡ some g
  unfolding host_id guest_id
  host_id-guest_id t g h nz e = ground (arith, M.left_to_right t.guest_to_host g h)

  guest_id-host_id :
      (t : ShadowTable B I) (g h : ℕ) → g ≢ 0 → guest_id P M t h ≡ some g → host_id P M t g ≡ some h
  unfolding host_id guest_id
  guest_id-host_id t g h nz e = ground (arith, M.right_to_left t.guest_to_host g h)

  -- In any table, translation to the host and translation back invert each other on ids that are
  -- not null.
  pub translate_iff :
      (t : ShadowTable B I) (g h : ℕ)
      → g ≢ 0
      → h ≢ 0
      → (host_id P M t g ≡ some h) ↔ (guest_id P M t h ≡ some g)
  translate_iff t g h ng nh = (host_id-guest_id t g h nh, guest_id-host_id t g h ng)

  -- After `map`, of the ids that are not null, the mapped id translates to its new host id, an
  -- object that held that host id before no longer translates, and every other id translates as
  -- before.
  pub host_id-map_ids :
      (t : ShadowTable B I) (g h k : ℕ) (i : I)
      → k ≢ 0
      → host_id P M (map_ids P M t g h i) k ≡ (
          if k == g
          then some h
          else if is_some_of h (host_id P M t k)
          then none
          else host_id P M t k)
  unfolding host_id map_ids
  host_id-map_ids t g h k i nz = ground (
    arith,
    M.get_by_left-insert t.guest_to_host g h k,
    get-insert g t.generation t.mapped_in_generation k,
  )

  pub interface-map_ids :
      (t : ShadowTable B I) (g h k : ℕ) (i : I)
      → interface P M (map_ids P M t g h i) k ≡ (if k == g then some i else interface P M t k)
  unfolding interface map_ids
  interface-map_ids t g h k i = get-insert g i t.interfaces k

  -- A removed object no longer translates to the host and has no interface; every other object
  -- but the null object keeps its translation to the host and its interface.
  pub host_id-remove_guest :
      (t : ShadowTable B I) (g k : ℕ)
      → k ≢ 0
      → (host_id P M (remove_guest P M t g) k ≡ (if k == g then none else host_id P M t k))
        × (interface P M (remove_guest P M t g) k ≡ (if k == g then none else interface P M t k))
  unfolding host_id interface remove_guest
  host_id-remove_guest t g k nz = (
    ground (arith, M.get_by_left-remove t.guest_to_host g k, get-remove g t.mapped_in_generation k),
    get-remove g t.interfaces k,
  )
