-- ===== src/Shadow/Allocators.antt =====
-- src/shadow_table.rs: the host must see ids 2, 3, 4, … with no gap.
use wl_resprox.Prelude.{
  ℕ, zero, suc, ◌+◌, ◌<◌, ◌^◌, ◌≡◌, refl, ap, ◌∙◌, List, [], ◌∷◌, if◌then◌else◌, ◌==◌, arith,
}
use wl_resprox.Protocol.{Protocol}
use wl_resprox.Shadow.BiMap.{BiMap}
use wl_resprox.Shadow.Table.{ShadowTable, bump_generation, allocate_host_id, unallocate_host_id}

-- `n`, `n + 1`, …, `k` numbers.
unfoldable pub upward : ℕ → ℕ → List ℕ
upward n zero = []
upward n (suc k) = n ∷ upward (n + 1) k

module _ {B I : Type 0} (P : Protocol I) (M : BiMap B) where
  -- The ids that `k` allocations in a row give.
  unfoldable pub allocate_many : ℕ → ShadowTable B I → List ℕ
  allocate_many zero t = []
  allocate_many (suc k) t = let (id, t') = allocate_host_id P M t in id ∷ allocate_many k t'

  allocate_many-upward :
      (k : ℕ) (t : ShadowTable B I)
      → t.next_host_id + k < 2 ^ 32
      → allocate_many k t ≡ upward t.next_host_id k
  unfolding allocate_many upward allocate_host_id
  allocate_many-upward zero t h = refl
  allocate_many-upward (suc k) t h = ap (◌∷◌ t.next_host_id) (
      allocate_many-upward k (allocate_host_id P M t).1 (omega arith)
      ∙ ap (λ n. upward n k) (omega arith))

  -- On a fresh connection the ids are 2, 3, 4, … without a gap, however many were given out on the
  -- connection before, until the 32 bits run out.
  pub allocate_many-bump_generation :
      (k : ℕ) (t : ShadowTable B I)
      → k + 2 < 2 ^ 32
      → allocate_many k (bump_generation P M t) ≡ upward 2 k
  unfolding bump_generation
  allocate_many-bump_generation k t h = allocate_many-upward k (bump_generation P M t) (omega arith)

  -- Giving back the id just allocated restores the table, if its counter is a 32-bit word; giving
  -- back any other id changes nothing.
  pub unallocate-allocate :
      (t : ShadowTable B I) (id : ℕ)
      → t.next_host_id < 2 ^ 32
      → unallocate_host_id P M (allocate_host_id P M t).1 id
        ≡ (if id == (allocate_host_id P M t).0 then t else (allocate_host_id P M t).1)
  unfolding allocate_host_id unallocate_host_id
  unallocate-allocate t id h = ground arith
