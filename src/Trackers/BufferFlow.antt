-- ===== src/Trackers/BufferFlow.antt =====
-- src/buffer_flow.rs: the buffers that the client may not reuse yet.
use wl_resprox.Prelude.{
  ℕ, ◌≡◌, refl, Bool, true, false, not, ◌&&◌, List, [], ◌∷◌, Option, none, some, if◌then◌else◌,
  ◌==◌, arith, Option-cases, inl, inr, ap, ◌∙◌,
}
use wl_resprox.Prelude.Map.{
  Map, get, insert, contains, add, discard, get-insert, contains-add, contains-discard,
}

pub record BufferFlowTracker : Type 0 where
  pub pending_attach : Map ℕ
  pub in_flight : List ℕ

unfoldable pub new : BufferFlowTracker
new = record { pending_attach = []; in_flight = [] }

unfoldable pub on_attach : BufferFlowTracker → ℕ → ℕ → BufferFlowTracker
on_attach t surface buffer = record t { pending_attach = insert surface buffer t.pending_attach }

-- The pending buffer stays pending; 0 is the null buffer.
unfoldable pub on_commit : BufferFlowTracker → ℕ → BufferFlowTracker
on_commit t surface = elim (get surface t.pending_attach) [
  | none ↦ t
  | some buffer ↦ if not (buffer == 0) then record t { in_flight = add buffer t.in_flight } else t
]

unfoldable pub on_release : BufferFlowTracker → ℕ → BufferFlowTracker
on_release t buffer = record t { in_flight = discard buffer t.in_flight }

unfoldable pub drain_in_flight : BufferFlowTracker → List ℕ × BufferFlowTracker
drain_in_flight t = (t.in_flight, record t { in_flight = [] })

pub data Call : Type 0 where
  attaches : ℕ → ℕ → Call
  commits releases : ℕ → Call
  drains : Call

unfoldable pub step : BufferFlowTracker → Call → BufferFlowTracker
unfolding on_attach on_commit on_release drain_in_flight
step t (attaches s b) = on_attach t s b
step t (commits s) = on_commit t s
step t (releases b) = on_release t b
step t drains = (drain_in_flight t).1

-- The two questions of the specification, asked of the calls before: which buffer a surface shows
-- (calls newest first), and whether a buffer is held by the compositor.
unfoldable pub attached : ℕ → List Call → Option ℕ
attached s [] = none
attached s (attaches s' b ∷ past) = if s == s' then some b else attached s past
attached s (_ ∷ past) = attached s past

unfoldable pub shows : ℕ → Option ℕ → Bool
shows b none = false
shows b (some b') = b' == b && not (b == 0)

unfoldable pub held : ℕ → List Call → Bool
unfolding attached shows
held b [] = false
held b (attaches s b' ∷ past) = held b past
held b (commits s ∷ past) = if shows b (attached s past) then true else held b past
held b (releases b' ∷ past) = if b == b' then false else held b past
held b (drains ∷ past) = false

-- The tracker after the calls in `past`, newest first.
unfoldable pub after : List Call → BufferFlowTracker
unfolding step new
after [] = new
after (c ∷ past) = step (after past) c

after-attached : (past : List Call) (s : ℕ) → get s (after past).pending_attach ≡ attached s past
unfolding after attached get
after-attached [] s = refl
after-attached (attaches s' b ∷ past) s =
    ground (arith, get-insert s' b (after past).pending_attach s, after-attached past s)
after-attached (commits s' ∷ past) s = ground (arith, after-attached past s)
after-attached (releases b ∷ past) s = after-attached past s
after-attached (drains ∷ past) s = after-attached past s

commit_held :
    (t : BufferFlowTracker) (s b : ℕ)
    → contains b (on_commit t s).in_flight
      ≡ (if shows b (get s t.pending_attach) then true else contains b t.in_flight)
unfolding on_commit shows
commit_held t s b = elim (Option-cases (get s t.pending_attach)) [
  | inl e ↦ rw (e, on_commit) refl
  | inr (b', e) ↦ rw (e, on_commit) (ground (arith, contains-add b' t.in_flight b))
]

after-held : (past : List Call) (b : ℕ) → contains b (after past).in_flight ≡ held b past
unfolding after held contains
after-held [] b = refl
after-held (attaches s b' ∷ past) b = after-held past b
after-held (commits s ∷ past) b =
    commit_held (after past) s b
    ∙ ap (λ o. if shows b o then true else contains b (after past).in_flight)
        (after-attached past s)
    ∙ ap (λ h. if shows b (attached s past) then true else h) (after-held past b)
after-held (releases b' ∷ past) b =
    ground (arith, contains-discard b' (after past).in_flight b, after-held past b)
after-held (drains ∷ past) b = refl

-- A drain reports exactly the buffers that some surface committed while they were attached, with
-- no release and no drain since; what is attached stays attached.
pub drain_in_flight-after :
    (past : List Call) (b s : ℕ)
    → (contains b (drain_in_flight (after past)).0 ≡ held b past)
      × ((drain_in_flight (after past)).1.in_flight ≡ [])
      × (get s (drain_in_flight (after past)).1.pending_attach ≡ attached s past)
unfolding drain_in_flight
drain_in_flight-after past b s = (after-held past b, refl, after-attached past s)
