-- ===== src/Shadow/Generations.antt =====
-- src/shadow_table.rs: what a reconnect leaves translatable.
use wl_resprox.Prelude.{
  ℕ, suc, ◌+◌, ◌%◌, ◌<◌, ◌≤◌, ◌^◌, ◌≡◌, refl, List, [], ◌∷◌, none, some, if◌then◌else◌, ◌==◌, arith,
  Option-cases, inl, inr, ◌∙◌, sym,
}
use wl_resprox.Wire.Words.{Bytes}
use wl_resprox.Prelude.Map.{get, insert, get-insert, get-remove}
use wl_resprox.Protocol.{Protocol}
use wl_resprox.Shadow.BiMap.{BiMap}
use wl_resprox.Shadow.Table.{
  ShadowTable, new, map_ids, remove_guest, bump_generation, host_id, allocate_host_id,
  unallocate_host_id, allocate_guest_server_id, remember_unresolvable_interface,
}

-- No id was mapped in a generation that is still to come.
abbrev pub Dated : {B I : Type 0} → ShadowTable B I → Type 0
Dated t = (k g : ℕ) → get k t.mapped_in_generation ≡ some g → g ≤ t.generation

-- The calls that the rest of the program makes.
pub data Call (I : Type 0) : Type 0 where
  maps : ℕ → ℕ → I → Call I
  removes unallocates : ℕ → Call I
  allocates allocates_server bumps : Call I
  remembers : ℕ → Bytes → Call I

module _ {B I : Type 0} (P : Protocol I) (M : BiMap B) where
  unfoldable pub step : ShadowTable B I → Call I → ShadowTable B I
  step t (maps g h i) = map_ids P M t g h i
  step t (removes g) = remove_guest P M t g
  step t (unallocates h) = unallocate_host_id P M t h
  step t allocates = (allocate_host_id P M t).1
  step t allocates_server = (allocate_guest_server_id P M t).1
  step t bumps = bump_generation P M t
  step t (remembers g name) = remember_unresolvable_interface P M t g name

  unfoldable pub run : ShadowTable B I → List (Call I) → ShadowTable B I
  unfolding step
  run t [] = t
  run t (c ∷ cs) = run (step t c) cs

  -- How many reconnects a list of calls holds.
  unfoldable pub reconnects : List (Call I) → ℕ
  reconnects [] = 0
  reconnects (bumps ∷ cs) = suc (reconnects cs)
  reconnects (_ ∷ cs) = reconnects cs

  pub new-Dated : Dated (new P M)
  unfolding new get insert
  new-Dated k g h = ground arith

  step-Dated :
      (t : ShadowTable B I) (c : Call I) → t.generation + 1 < 2 ^ 64 → Dated t → Dated (step t c)
  unfolding step map_ids remove_guest unallocate_host_id allocate_host_id allocate_guest_server_id
      bump_generation remember_unresolvable_interface
  step-Dated t (maps g h i) b d k x e =
      ground (arith, get-insert g t.generation t.mapped_in_generation k, d k x)
  step-Dated t (removes g) b d k x e = ground (arith, get-remove g t.mapped_in_generation k, d k x)
  step-Dated t bumps b d k x e =
      ground (arith, get-insert 1 ((t.generation + 1) % 2 ^ 64) t.mapped_in_generation k, d k x)
  step-Dated t (unallocates h) b d k x e = ground (arith, d k x)
  step-Dated t _ b d k x e = d k x e

  step-generation :
      (t : ShadowTable B I) (c : Call I) (cs : List (Call I))
      → t.generation + reconnects (c ∷ cs) < 2 ^ 64
      → (t.generation + reconnects (c ∷ cs) ≡ (step t c).generation + reconnects cs)
  unfolding step map_ids remove_guest unallocate_host_id allocate_host_id allocate_guest_server_id
      bump_generation remember_unresolvable_interface reconnects
  step-generation t bumps cs b = omega arith
  step-generation t (unallocates h) cs b = ground arith
  step-generation t _ cs b = refl

  reconnects_nil : (t : ShadowTable B I) → t.generation ≡ t.generation + reconnects []
  unfolding reconnects
  reconnects_nil t = omega arith

  new-generation : (new P M).generation ≡ 0
  unfolding new
  new-generation = refl

  run-Dated :
      (t : ShadowTable B I) (cs : List (Call I))
      → t.generation + reconnects cs + 1 < 2 ^ 64
      → Dated t
      → Dated (run t cs) × ((run t cs).generation ≡ t.generation + reconnects cs)
  unfolding run
  run-Dated t [] b d = (d, reconnects_nil t)
  run-Dated t (c ∷ cs) b d =
      let e = step-generation t c cs (omega arith) in
      let (dated, counted) =
        run-Dated (step t c) cs (omega (arith, e)) (step-Dated t c (omega (arith, e)) d) in
      (dated, counted ∙ sym e)

  -- After a reconnect, only the null object and `wl_display` translate to the new host, each to
  -- itself; every id of the old connection is refused. The table has no mapping of a generation to
  -- come, and its generation does not wrap.
  pub host_id-bump_generation :
      (t : ShadowTable B I) (k : ℕ)
      → t.generation + 1 < 2 ^ 64
      → Dated t
      → host_id P M (bump_generation P M t) k
        ≡ (if k == 0 then some 0 else if k == 1 then some 1 else none)
  unfolding host_id bump_generation
  host_id-bump_generation t k b d = elim (Option-cases (get k t.mapped_in_generation)) [
    | inl e ↦ ground (
      arith,
      M.get_by_left-insert t.guest_to_host 1 1 k,
      get-insert 1 ((t.generation + 1) % 2 ^ 64) t.mapped_in_generation k,
    )
    | inr (g, e) ↦ ground (
      arith,
      d k g e,
      M.get_by_left-insert t.guest_to_host 1 1 k,
      get-insert 1 ((t.generation + 1) % 2 ^ 64) t.mapped_in_generation k,
    )
  ]

  -- After any calls on a new table, with fewer than 2 ^ 64 - 1 reconnects among them, a reconnect
  -- leaves only the null object and `wl_display` translatable to the host, each to itself.
  pub host_id-run_bump :
      (cs : List (Call I)) (k : ℕ)
      → reconnects cs + 1 < 2 ^ 64
      → host_id P M (bump_generation P M (run (new P M) cs)) k
        ≡ (if k == 0 then some 0 else if k == 1 then some 1 else none)
  host_id-run_bump cs k b =
      let start = new-generation in
      let (dated, counted) = run-Dated (new P M) cs (omega arith) new-Dated in
      host_id-bump_generation (run (new P M) cs) k (omega arith) dated
