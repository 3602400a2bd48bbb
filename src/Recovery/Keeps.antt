-- ===== src/Recovery/Keeps.antt =====
-- src/lib.rs: replay in `recover_state_after_reconnect` takes no object's translation away.
use wl_resprox.Prelude.{
  ℕ, zero, suc, ◌+◌, ◌*◌, ◌^◌, ◌≤◌, ◌<◌, ◌≡◌, ◌≢◌, refl, sym, ◌∙◌, List, [], ◌∷◌, some, arith,
  length, All, if◌then◌else◌, ◌==◌, inl, inr, Option-cases, ==_self,
}
use wl_resprox.Shadow.Generations.{Dated, host_id-bump_generation}
use wl_resprox.Shadow.Table.{
  ShadowTable, bump_generation, allocate_host_id, map_ids, host_id, interface,
}
use wl_resprox.Shadow.Translate.{host_id-map_ids}
use wl_resprox.Recreation.Graph.{Recreatable}
use wl_resprox.Relay.Session.{World}
use wl_resprox.Recovery.State.{Recovery, Step, skipped, created, panicked}
use wl_resprox.Recovery.Replay.{Found, Replayed, finished, replay_recipe, go_on, replay}
use wl_resprox.Recovery.Growth.{advance, Grown, replay_recipe-Grown}

module _ {B I : Type 0} (W : World B I) where
  -- Every host id in use was given out: the next one is above them all.
  abbrev pub Fresh : ShadowTable B I → Type 0
  Fresh t = (k h : ℕ) → k ≢ 0 → host_id W.protocol W.ids t k ≡ some h → h < t.next_host_id

  -- No recipe of the list is for this id.
  abbrev pub Apart : ℕ → List (ℕ × Recreatable I) → Type 0
  Apart k m = All (λ (entry : ℕ × Recreatable I). k ≢ entry.0) m

  next_host_id-bump : (t : ShadowTable B I) → (bump_generation W.protocol W.ids t).next_host_id ≡ 2
  unfolding bump_generation map_ids
  next_host_id-bump t = refl

  -- The table that recovery starts with.
  pub bump_generation-Fresh :
      (t : ShadowTable B I)
      → t.generation + 1 < 2 ^ 64
      → Dated t
      → Fresh (bump_generation W.protocol W.ids t)
  bump_generation-Fresh t bound dated k h nz e =
      let next : (bump_generation W.protocol W.ids t).next_host_id ≡ 2 = next_host_id-bump t in
      let only = host_id-bump_generation W.protocol W.ids t k bound dated in
      rw next (ground (arith, only))

  pub host_id-advance :
      (n : ℕ) (t : ShadowTable B I) (k : ℕ)
      → host_id W.protocol W.ids (advance W n t) k ≡ host_id W.protocol W.ids t k
  unfolding advance host_id allocate_host_id
  host_id-advance zero t k = refl
  host_id-advance (suc n) t k = host_id-advance n (allocate_host_id W.protocol W.ids t).1 k

  pub interface-advance :
      (n : ℕ) (t : ShadowTable B I) (k : ℕ)
      → interface W.protocol W.ids (advance W n t) k ≡ interface W.protocol W.ids t k
  unfolding advance interface allocate_host_id
  interface-advance zero t k = refl
  interface-advance (suc n) t k = interface-advance n (allocate_host_id W.protocol W.ids t).1 k

  pub next_host_id-advance :
      (n : ℕ) (t : ShadowTable B I)
      → t.next_host_id + n < 2 ^ 32
      → (advance W n t).next_host_id ≡ t.next_host_id + n
  unfolding advance allocate_host_id
  next_host_id-advance zero t h = omega arith
  next_host_id-advance (suc n) t h =
      let later = next_host_id-advance n (allocate_host_id W.protocol W.ids t).1 (omega arith) in
      omega (arith, later)

  -- From one table to a later one: ids stay fresh, at most so many are given out, and every object
  -- but `guest` keeps its translation.
  abbrev pub Keeps : ℕ → ℕ → ShadowTable B I → ShadowTable B I → Type 0
  Keeps most guest t u =
      Fresh u
      × (u.next_host_id ≤ t.next_host_id + most)
      × ((k h : ℕ)
          → k ≢ 0
          → k ≢ guest
          → host_id W.protocol W.ids t k ≡ some h
          → host_id W.protocol W.ids u k ≡ some h)

  abbrev pub After : (Recovery B I → Type 0) → Step B I → Type 0
  After P (skipped s) = P s
  After P (created host child s) = P s
  After P panicked = Unit

  advance-Keeps :
      (most n guest : ℕ) (t : ShadowTable B I)
      → n ≤ most
      → Fresh t
      → t.next_host_id + most < 2 ^ 32
      → Keeps most guest t (advance W n t)
  advance-Keeps most n guest t few fresh bound =
      let next = next_host_id-advance n t (omega arith) in
      (
        λ k h nz e. let below = fresh k h nz (sym (host_id-advance n t k) ∙ e) in omega arith,
        omega arith,
        λ k h nz other e. host_id-advance n t k ∙ e,
      )

  -- What `map` with a fresh host id gives.
  fresh_map_ids :
      (t : ShadowTable B I) (guest host k : ℕ) (child : I)
      → ((h : ℕ) → host_id W.protocol W.ids t k ≡ some h → h < host)
      → k ≢ 0
      → host_id W.protocol W.ids (map_ids W.protocol W.ids t guest host child) k
        ≡ (if k == guest then some host else host_id W.protocol W.ids t k)
  fresh_map_ids t guest host k child below nz = elim (Option-cases (host_id W.protocol W.ids t k)) [
    | inl missing ↦
        rw missing (ground (arith, host_id-map_ids W.protocol W.ids t guest host k child nz))
    | inr (h, found) ↦
        let less = below h found in
        rw found (ground (arith, host_id-map_ids W.protocol W.ids t guest host k child nz))
  ]

  pub map_ids-Keeps :
      (most n guest : ℕ) (t : ShadowTable B I) (child : I)
      → suc n ≤ most
      → Fresh t
      → t.next_host_id + most < 2 ^ 32
      → Keeps most guest t
          (map_ids W.protocol W.ids (advance W (suc n) t) guest (advance W n t).next_host_id child)
  unfolding map_ids
  map_ids-Keeps most n guest t child few fresh bound =
      let last = next_host_id-advance n t (omega arith) in
      let next = next_host_id-advance (suc n) t (omega arith) in
      let host : ℕ = (advance W n t).next_host_id in
      let mapped : (k : ℕ)
          → k ≢ 0
          → host_id W.protocol W.ids
              (map_ids W.protocol W.ids (advance W (suc n) t) guest host child) k
            ≡ (if k == guest then some host else host_id W.protocol W.ids t k) =
        λ k nz. rw (sym (host_id-advance (suc n) t k)) (
          fresh_map_ids (advance W (suc n) t) guest host k child
            (λ h e. let below = fresh k h nz (sym (host_id-advance (suc n) t k) ∙ e) in omega arith)
            nz) in
      (
        λ k h nz e. ground (arith, mapped k nz, fresh k h nz),
        omega arith,
        λ k h nz other e. ground (arith, mapped k nz),
      )

  pub Grown-Keeps :
      (most guest : ℕ) (t : ShadowTable B I) (x : Step B I)
      → Grown W most guest t x
      → Fresh t
      → t.next_host_id + most < 2 ^ 32
      → After (λ s. Keeps most guest t s.objects) x
  Grown-Keeps most guest t (skipped s) (n, few, same) fresh bound =
      rw same (advance-Keeps most n guest t few fresh bound)
  Grown-Keeps most guest t (created host child s) (n, few, last, same) fresh bound =
      rw (same, last) (map_ids-Keeps most n guest t child few fresh bound)
  Grown-Keeps most guest t panicked g fresh bound = tt

  -- What replay of a list of recipes keeps.
  abbrev pub Lasts : List (ℕ × Recreatable I) → ShadowTable B I → ShadowTable B I → Type 0
  Lasts m t u =
      Fresh u
      × ((k h : ℕ)
          → k ≢ 0
          → Apart k m
          → host_id W.protocol W.ids t k ≡ some h
          → host_id W.protocol W.ids u k ≡ some h)

  abbrev Goes : List (ℕ × Recreatable I) → (Recovery B I → Replayed B I) → Type 0
  Goes m next =
      (s s' : Recovery B I)
      → next s ≡ finished s'
      → Fresh s.objects
      → s.objects.next_host_id + 2 * length m < 2 ^ 32
      → Lasts m s.objects s'.objects

  go_on-Lasts :
      (guest : ℕ) (recipe : Recreatable I) (rest : List (ℕ × Recreatable I))
      (next : Recovery B I → Replayed B I) (t : ShadowTable B I) (x : Step B I) (s' : Recovery B I)
      → Goes rest next
      → After (λ s. Keeps 2 guest t s.objects) x
      → go_on W next x ≡ finished s'
      → t.next_host_id + 2 * length ((guest, recipe) ∷ rest) < 2 ^ 32
      → Lasts ((guest, recipe) ∷ rest) t s'.objects
  unfolding go_on
  go_on-Lasts guest recipe rest next t (skipped s) s' ih (fresh, few, keeps) e bound =
      let (fresh', lasts) = ih s s' e fresh (omega arith) in
      (fresh', λ k h nz apart at. lasts k h nz apart.1 (keeps k h nz apart.0 at))
  go_on-Lasts guest recipe rest next t (created host child s) s' ih (fresh, few, keeps) e bound =
      let (fresh', lasts) = ih s s' e fresh (omega arith) in
      (fresh', λ k h nz apart at. lasts k h nz apart.1 (keeps k h nz apart.0 at))
  go_on-Lasts guest recipe rest next t panicked s' ih k e bound = absurd (cc)

  pub replay-Lasts : (f : Found I) (m : List (ℕ × Recreatable I)) → Goes m (replay W f m)
  unfolding replay
  replay-Lasts f [] s s' e fresh bound =
      let same : s.objects ≡ s'.objects = cc in rw (sym same) (fresh, λ k h nz apart at. at)
  replay-Lasts f ((guest, recipe) ∷ rest) s s' e fresh bound =
      go_on-Lasts guest recipe rest (λ t. replay W f rest t) s.objects
        (replay_recipe W f guest recipe s) s' (replay-Lasts f rest)
        (Grown-Keeps 2 guest s.objects (replay_recipe W f guest recipe s)
          (replay_recipe-Grown W f guest recipe s) fresh (omega arith))
        e bound

  -- The object that a recipe made.
  pub created_host_id :
      (most guest host : ℕ) (t : ShadowTable B I) (child : I) (s : Recovery B I)
      → guest ≢ 0
      → Grown W most guest t (created host child s)
      → Fresh t
      → t.next_host_id + most < 2 ^ 32
      → host_id W.protocol W.ids s.objects guest ≡ some host
  created_host_id most guest host t child s nz (n, few, last, same) fresh bound = rw same (
      ground (
        arith,
        host_id-map_ids W.protocol W.ids (advance W (suc n) t) guest host guest child nz,
        ==_self guest,
      ))

  -- If every host id in use was given out, and there are enough left for two to each recipe, then
  -- a replay that finishes leaves an object that translates, and that no recipe is for, with the host
  -- id that it has; the host ids in use are then still below the next one.
  pub replay-lasting :
      (f : Found I) (recipes : List (ℕ × Recreatable I)) (s s' : Recovery B I) (k h : ℕ)
      → Fresh s.objects
      → s.objects.next_host_id + 2 * length recipes < 2 ^ 32
      → replay W f recipes s ≡ finished s'
      → k ≢ 0
      → Apart k recipes
      → host_id W.protocol W.ids s.objects k ≡ some h
      → (host_id W.protocol W.ids s'.objects k ≡ some h) × Fresh s'.objects
  replay-lasting f recipes s s' k h fresh bound all nz apart e =
      let (fresh', kept) = replay-Lasts f recipes s s' all fresh bound in
      (kept k h nz apart e, fresh')
