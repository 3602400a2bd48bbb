-- ===== src/Recovery/Made.antt =====
-- src/lib.rs: replay in `recover_state_after_reconnect` keeps what a recipe makes.
use wl_resprox.Prelude.{
  ℕ, suc, ◌+◌, ◌*◌, ◌^◌, ◌≤◌, ◌<◌, ◌≡◌, ◌≢◌, sym, ap, ◌∙◌, List, [], ◌∷◌, ◌++◌, some, arith, length,
}
use wl_resprox.Shadow.Table.{ShadowTable, host_id}
use wl_resprox.Recreation.Graph.{Recreatable}
use wl_resprox.Relay.Session.{World}
use wl_resprox.Recovery.State.{Recovery, Step, skipped, created, panicked}
use wl_resprox.Recovery.Replay.{Found, Replayed, finished, aborted, replay_recipe, go_on, replay}
use wl_resprox.Recovery.Growth.{Grown, replay_recipe-Grown}
use wl_resprox.Recovery.Keeps.{
  Fresh, Apart, Keeps, After, Grown-Keeps, created_host_id, replay-Lasts,
}

module _ {B I : Type 0} (W : World B I) where
  abbrev state : Recovery B I → Replayed B I → Recovery B I
  state other (finished s) = s
  state other aborted = other

  -- The object that the first recipe makes.
  first-made :
      (f : Found I) (guest : ℕ) (recipe : Recreatable I) (later : List (ℕ × Recreatable I))
      (s made s' : Recovery B I) (host : ℕ) (child : I)
      → Fresh W s.objects
      → s.objects.next_host_id + 2 * suc (length later) < 2 ^ 32
      → guest ≢ 0
      → Apart W guest later
      → replay_recipe W f guest recipe s ≡ created host child made
      → replay W f ((guest, recipe) ∷ later) s ≡ finished s'
      → host_id W.protocol W.ids s'.objects guest ≡ some host
  unfolding replay go_on
  first-made f guest recipe later s made s' host child fresh bound nz apart e all =
      let grown : Grown W 2 guest s.objects (created host child made) =
        rw e at (replay_recipe-Grown W f guest recipe s) in
      let (fresh', few, keeps) =
        Grown-Keeps W 2 guest s.objects (created host child made) grown fresh (omega arith) in
      let at = created_host_id W 2 guest host s.objects child made nz grown fresh (omega arith) in
      let rest : replay W f later made ≡ finished s' =
        sym (ap (go_on W (λ t. replay W f later t)) e) ∙ all in
      (replay-Lasts W f later made s' rest fresh' (omega arith)).1 guest host nz apart at

  go_on-made :
      (before all : Recovery B I → Replayed B I) (guest host : ℕ) (x : Step B I)
      (t s' : Recovery B I) (u : ShadowTable B I) (at : ℕ)
      → After W (λ s. Keeps W 2 at u s.objects) x
      → ((s : Recovery B I)
          → Fresh W s.objects
          → s.objects.next_host_id ≤ u.next_host_id + 2
          → before s ≡ finished t
          → all s ≡ finished s'
          → host_id W.protocol W.ids s'.objects guest ≡ some host)
      → go_on W before x ≡ finished t
      → go_on W all x ≡ finished s'
      → host_id W.protocol W.ids s'.objects guest ≡ some host
  unfolding go_on
  go_on-made before all guest host (skipped s) t s' u at (fresh, few, keeps) ih p q =
      ih s fresh few p q
  go_on-made before all guest host (created h c s) t s' u at (fresh, few, keeps) ih p q =
      ih s fresh few p q
  go_on-made before all guest host panicked t s' u at k ih p q = absurd (cc)

  -- If every host id in use was given out, and there are enough left for two to each recipe, then an
  -- object that a recipe makes in a replay that finishes, whatever stands before that recipe, ends with
  -- the host id that it was given, if no later recipe is for the same object.
  pub replay-made :
      (f : Found I) (before : List (ℕ × Recreatable I)) (guest : ℕ) (recipe : Recreatable I)
      (later : List (ℕ × Recreatable I)) (s t made s' : Recovery B I) (host : ℕ) (child : I)
      → Fresh W s.objects
      → s.objects.next_host_id + 2 * (length before + suc (length later)) < 2 ^ 32
      → guest ≢ 0
      → Apart W guest later
      → replay W f before s ≡ finished t
      → replay_recipe W f guest recipe t ≡ created host child made
      → replay W f (before ++ (guest, recipe) ∷ later) s ≡ finished s'
      → host_id W.protocol W.ids s'.objects guest ≡ some host
  unfolding replay
  replay-made f [] guest recipe later s t made s' host child fresh bound nz apart here e all =
      let same : s ≡ t = ap (state s) here in
      first-made f guest recipe later s made s' host child fresh (omega arith) nz apart
        (ap (λ v. replay_recipe W f guest recipe v) same ∙ e) all
  replay-made f ((k, first) ∷ before) guest recipe later s t made s' host child fresh bound nz apart
        here e all =
      go_on-made (λ u. replay W f before u) (λ u. replay W f (before ++ (guest, recipe) ∷ later) u)
        guest host (replay_recipe W f k first s) t s' s.objects k
        (Grown-Keeps W 2 k s.objects (replay_recipe W f k first s)
          (replay_recipe-Grown W f k first s) fresh (omega arith))
        (λ u fresh' few p q.
          replay-made f before guest recipe later u t made s' host child fresh' (omega arith) nz
            apart p e q)
        here all
