-- ===== src/Shadow/Table.antt =====
-- src/shadow_table.rs: the table and its operations. A `u32` counter wraps, as in a release build.
use Prim.Native.String.{String}
use text.Mathlib.Text.{◌==◌ as str_eq}
use wl_resprox.Prelude.{
  ℕ, ◌+◌, ◌-◌, ◌%◌, ◌^◌, Bool, [], ◌∷◌, Option, none, some, if◌then◌else◌, ◌==◌,
}
use wl_resprox.Prelude.Map.{Map, get, insert, remove}
use wl_resprox.Wire.Words.{Bytes}
use wl_resprox.Protocol.{Protocol}
use wl_resprox.Shadow.BiMap.{BiMap, is_some_of}

pub record ShadowTable (B I : Type 0) : Type 0 where
  pub guest_to_host : B
  pub interfaces : Map I
  pub next_host_id : ℕ
  pub next_guest_server_id : ℕ
  pub generation : ℕ
  pub mapped_in_generation : Map ℕ
  pub unresolvable_interfaces : Map Bytes

module _ {B I : Type 0} (P : Protocol I) (M : BiMap B) where
  -- `map`: the ids name one object.
  unfoldable pub map_ids : ShadowTable B I → ℕ → ℕ → I → ShadowTable B I
  map_ids t guest_id host_id interface = record t {
    guest_to_host = M.insert t.guest_to_host guest_id host_id;
    interfaces = insert guest_id interface t.interfaces;
    mapped_in_generation = insert guest_id t.generation t.mapped_in_generation;
  }

  -- `wl_display` is id 1 on both sides.
  unfoldable pub new : ShadowTable B I
  unfolding map_ids
  new =
      map_ids
        (record {
          guest_to_host = M.empty;
          interfaces = [];
          next_host_id = 2;
          next_guest_server_id = 0xff000000;
          generation = 0;
          mapped_in_generation = [];
          unresolvable_interfaces = [];
        })
        1 1 (P.static_interface "wl_display")

  unfoldable pub bump_generation : ShadowTable B I → ShadowTable B I
  unfolding map_ids
  bump_generation t =
      let bumped = record t { generation = (t.generation + 1) % 2 ^ 64; next_host_id = 2 } in
      let seeded = map_ids bumped 1 1 (P.static_interface "wl_display") in
      record seeded { unresolvable_interfaces = [] }

  unfoldable pub is_current_generation : ShadowTable B I → ℕ → Bool
  is_current_generation t guest_id = is_some_of t.generation (get guest_id t.mapped_in_generation)

  unfoldable pub allocate_host_id : ShadowTable B I → ℕ × ShadowTable B I
  allocate_host_id t = (t.next_host_id, record t { next_host_id = (t.next_host_id + 1) % 2 ^ 32 })

  unfoldable pub unallocate_host_id : ShadowTable B I → ℕ → ShadowTable B I
  unallocate_host_id t id =
      let last : ℕ = (t.next_host_id + 2 ^ 32 - 1) % 2 ^ 32 in
      if id == last then record t { next_host_id = last } else t

  unfoldable pub allocate_guest_server_id : ShadowTable B I → ℕ × ShadowTable B I
  allocate_guest_server_id t = (
    t.next_guest_server_id,
    record t { next_guest_server_id = (t.next_guest_server_id + 1) % 2 ^ 32 },
  )

  -- To the host's ids; the null object is 0 on both sides, and a mapping of an earlier generation
  -- does not count.
  unfoldable pub host_id : ShadowTable B I → ℕ → Option ℕ
  unfolding is_current_generation
  host_id t guest_id =
      if guest_id == 0
      then some 0
      else if is_current_generation t guest_id
      then M.get_by_left t.guest_to_host guest_id
      else none

  unfoldable pub guest_id : ShadowTable B I → ℕ → Option ℕ
  unfolding is_current_generation
  guest_id t host_id =
      if host_id == 0 then some 0 else elim (M.get_by_right t.guest_to_host host_id) [
        | none ↦ none
        | some g ↦ if is_current_generation t g then some g else none
      ]

  unfoldable pub interface : ShadowTable B I → ℕ → Option I
  interface t guest_id = get guest_id t.interfaces

  unfoldable pub remember_unresolvable_interface : ShadowTable B I → ℕ → Bytes → ShadowTable B I
  remember_unresolvable_interface t guest_id name = record t {
    unresolvable_interfaces = insert guest_id name t.unresolvable_interfaces;
  }

  unfoldable pub unresolvable_interface_name : ShadowTable B I → ℕ → Option Bytes
  unresolvable_interface_name t guest_id = get guest_id t.unresolvable_interfaces

  unfoldable pub find_by_name : String → Map I → Option ℕ
  find_by_name name [] = none
  find_by_name name ((id, iface) ∷ m) =
      if str_eq (P.name iface) name then some id else find_by_name name m

  unfoldable pub find_guest_id_by_interface_name : ShadowTable B I → String → Option ℕ
  unfolding find_by_name
  find_guest_id_by_interface_name t name = find_by_name name t.interfaces

  unfoldable pub remove_guest : ShadowTable B I → ℕ → ShadowTable B I
  remove_guest t guest_id = record t {
    guest_to_host = M.remove_by_left t.guest_to_host guest_id;
    interfaces = remove guest_id t.interfaces;
    mapped_in_generation = remove guest_id t.mapped_in_generation;
    unresolvable_interfaces = remove guest_id t.unresolvable_interfaces;
  }
