-- ===== src/Trackers/GrabLaws.antt =====
-- src/grab_state.rs: what a reconnect is told to release, against the history of events.
use wl_resprox.Prelude.{
  ℕ, ◌≡◌, refl, ap, ◌∙◌, ◌||◌, ◌++◌, ==_self, List, [], ◌∷◌, Option, none, some, if◌then◌else◌,
  ◌==◌, arith, Option-cases, inl, inr,
}
use wl_resprox.Prelude.Map.{
  Map, get, insert, get-insert, Distinct, insert-Distinct, contains, contains-discard,
}
use wl_resprox.Trackers.Grabs.{
  PointerState, KeyboardState, GrabTracker, no_pointer, pointer_or_default, on_pointer_leave, press,
  on_keyboard_leave, is_grabbing, active_pointers, active_pointer_grabs, active_keyboards,
  active_keyboard_grabs,
}
use wl_resprox.Trackers.GrabHistory.{
  Call, enters, leaves, buttons, key_enters, key_leaves, clears, after, focus, is_down, pressed,
  grab_of, key_focus,
}

contains-snoc : (b c : ℕ) (bs : List ℕ) → contains b (bs ++ c ∷ []) ≡ (contains b bs || c == b)
unfolding contains
contains-snoc b c [] = ground arith
contains-snoc b c (x ∷ bs) = ground (arith, contains-snoc b c bs)

contains-pressed : (p b : ℕ) (past : List Call) → contains b (pressed p past) ≡ is_down p b past
unfolding pressed is_down contains
contains-pressed p b [] = refl
contains-pressed p b (buttons q c state ∷ past) = ground (
  arith,
  contains-pressed p b past,
  contains-pressed p c past,
  contains-discard c (pressed p past) b,
  contains-snoc b c (pressed p past),
)
contains-pressed p b (clears ∷ past) = refl
contains-pressed p b (enters q s ∷ past) = contains-pressed p b past
contains-pressed p b (leaves q ∷ past) = contains-pressed p b past
contains-pressed p b (key_enters k s ∷ past) = contains-pressed p b past
contains-pressed p b (key_leaves k ∷ past) = contains-pressed p b past

-- The tracker's list goes the way of the history.
press-pressed :
    (p b state : ℕ) (past : List Call)
    → press (pressed p past) b state ≡ pressed p (buttons p b state ∷ past)
unfolding press pressed
press-pressed p b state past = ground (arith, contains-pressed p b past, ==_self p)

grab_of-is_grabbing :
    (focus : Option ℕ) (bs : List ℕ)
    → let s : PointerState = record { entered_surface = focus; pressed_buttons = bs } in
      (if is_grabbing s then some s else none) ≡ grab_of focus bs
unfolding is_grabbing grab_of
grab_of-is_grabbing none [] = refl
grab_of-is_grabbing none (b ∷ bs) = refl
grab_of-is_grabbing (some surface) bs = refl

pointer_or_default-insert :
    (k : ℕ) (v : PointerState) (m : Map PointerState) (j : ℕ)
    → pointer_or_default j (insert k v m) ≡ (if j == k then v else pointer_or_default j m)
unfolding pointer_or_default
pointer_or_default-insert k v m j = ground (arith, get-insert k v m j)

pointer_or_default-leave :
    (t : GrabTracker) (q p : ℕ)
    → pointer_or_default p (on_pointer_leave t q).pointers ≡ (
        if p == q
        then record (pointer_or_default p t.pointers) { entered_surface = none }
        else pointer_or_default p t.pointers)
unfolding pointer_or_default on_pointer_leave
pointer_or_default-leave t q p = elim (Option-cases (get q t.pointers)) [
  | inl e ↦ rw (e, on_pointer_leave) (ground arith)
  | inr (s, e) ↦
      rw (e, on_pointer_leave)
        (ground (arith, get-insert q (record s { entered_surface = none }) t.pointers p))
]

keyboard_leave_pointers : (t : GrabTracker) (k : ℕ) → (on_keyboard_leave t k).pointers ≡ t.pointers
unfolding on_keyboard_leave
keyboard_leave_pointers t k = ground arith

pointer_or_default-nil : (p : ℕ) → pointer_or_default p [] ≡ no_pointer
unfolding pointer_or_default get
pointer_or_default-nil p = refl

after_pointer :
    (past : List Call) (p : ℕ)
    → pointer_or_default p (after past).pointers
      ≡ record { entered_surface = focus p past; pressed_buttons = pressed p past }
unfolding after focus pressed
after_pointer [] p = pointer_or_default-nil p
after_pointer (enters q s ∷ past) p = ground (
  arith,
  pointer_or_default-insert q
      (record (pointer_or_default q (after past).pointers) { entered_surface = some s })
      (after past).pointers p,
  after_pointer past p,
  after_pointer past q,
)
after_pointer (leaves q ∷ past) p =
    ground (arith, pointer_or_default-leave (after past) q p, after_pointer past p)
after_pointer (buttons q b st ∷ past) p =
    let old = pointer_or_default q (after past).pointers in
    ground (
      arith,
      pointer_or_default-insert q (record old { pressed_buttons = press old.pressed_buttons b st })
          (after past).pointers p,
      after_pointer past p,
      after_pointer past q,
      press-pressed q b st past,
    )
after_pointer (clears ∷ past) p = pointer_or_default-nil p
after_pointer (key_enters k s ∷ past) p = after_pointer past p
after_pointer (key_leaves k ∷ past) p =
    rw (keyboard_leave_pointers (after past) k) (after_pointer past p)

leave-Distinct :
    (t : GrabTracker) (q : ℕ)
    → Distinct t.pointers × Distinct t.keyboards
    → Distinct (on_pointer_leave t q).pointers × Distinct (on_pointer_leave t q).keyboards
unfolding on_pointer_leave
leave-Distinct t q (ps, ks) = elim (Option-cases (get q t.pointers)) [
  | inl e ↦ rw (e, on_pointer_leave) (ps, ks)
  | inr (s, e) ↦ rw (e, on_pointer_leave) (insert-Distinct q _ t.pointers ps, ks)
]

key_leave-Distinct :
    (t : GrabTracker) (q : ℕ)
    → Distinct t.pointers × Distinct t.keyboards
    → Distinct (on_keyboard_leave t q).pointers × Distinct (on_keyboard_leave t q).keyboards
unfolding on_keyboard_leave
key_leave-Distinct t q (ps, ks) = elim (Option-cases (get q t.keyboards)) [
  | inl e ↦ rw (e, on_keyboard_leave) (ps, ks)
  | inr (s, e) ↦ rw (e, on_keyboard_leave) (ps, insert-Distinct q _ t.keyboards ks)
]

leave_keyboards : (t : GrabTracker) (p : ℕ) → (on_pointer_leave t p).keyboards ≡ t.keyboards
unfolding on_pointer_leave
leave_keyboards t p = ground arith

abbrev key_surface : Option KeyboardState → Option ℕ
key_surface none = none
key_surface (some s) = s.entered_surface

-- The maps of the tracker hold no id twice.
abbrev HasDistinct : GrabTracker → Type 0
HasDistinct t = Distinct t.pointers × Distinct t.keyboards

after-Distinct : (past : List Call) → HasDistinct (after past)
unfolding after on_pointer_leave on_keyboard_leave
after-Distinct [] = (tt, tt)
after-Distinct (enters q s ∷ past) =
    let (ps, ks) = after-Distinct past in (insert-Distinct q _ (after past).pointers ps, ks)
after-Distinct (leaves q ∷ past) = leave-Distinct (after past) q (after-Distinct past)
after-Distinct (buttons q b st ∷ past) =
    let (ps, ks) = after-Distinct past in (insert-Distinct q _ (after past).pointers ps, ks)
after-Distinct (key_enters k s ∷ past) =
    let (ps, ks) = after-Distinct past in (ps, insert-Distinct k _ (after past).keyboards ks)
after-Distinct (key_leaves k ∷ past) = key_leave-Distinct (after past) k (after-Distinct past)
after-Distinct (clears ∷ past) = (tt, tt)

after_keyboard :
    (past : List Call) (k : ℕ) → key_surface (get k (after past).keyboards) ≡ key_focus k past
unfolding after key_focus get on_keyboard_leave
after_keyboard [] k = refl
after_keyboard (key_enters j s ∷ past) k = ground (
  arith,
  get-insert j (record { entered_surface = some s }) (after past).keyboards k,
  after_keyboard past k,
)
after_keyboard (key_leaves j ∷ past) k = ground (
  arith,
  get-insert j (record { entered_surface = none }) (after past).keyboards k,
  after_keyboard past k,
)
after_keyboard (leaves q ∷ past) k = rw (leave_keyboards (after past) q) (after_keyboard past k)
after_keyboard (clears ∷ past) k = refl
after_keyboard (_ ∷ past) k = after_keyboard past k

get-active_pointers :
    (m : Map PointerState) (p : ℕ)
    → Distinct m
    → get p (active_pointers m)
      ≡ (if is_grabbing (pointer_or_default p m) then some (pointer_or_default p m) else none)
unfolding get active_pointers pointer_or_default is_grabbing
get-active_pointers [] p d = refl
get-active_pointers ((q, s) ∷ m) p d = ground (arith, get-active_pointers m p d.1)

get-active_keyboards :
    (m : Map KeyboardState) (k : ℕ)
    → Distinct m
    → get k (active_keyboards m) ≡ key_surface (get k m)
unfolding get active_keyboards
get-active_keyboards [] k d = refl
get-active_keyboards ((q, s) ∷ m) k d = ground (arith, get-active_keyboards m k d.1)

-- A reconnect is told to release exactly what the history holds: each pointer with its focus and
-- its pressed buttons if it has either, and no other pointer, and each keyboard with its focus if it
-- has one, and no other. A button is among the pressed ones of a pointer exactly if its last event on
-- it was a press, and these stand in the order of the presses.
pub active_grabs-after :
    (past : List Call) (p b k : ℕ)
    → (get p (active_pointer_grabs (after past)) ≡ grab_of (focus p past) (pressed p past))
      × (contains b (pressed p past) ≡ is_down p b past)
      × (get k (active_keyboard_grabs (after past)) ≡ key_focus k past)
unfolding active_pointer_grabs active_keyboard_grabs
active_grabs-after past p b k =
    let (ps, ks) = after-Distinct past in
    (
      get-active_pointers (after past).pointers p ps
          ∙ ap (λ s. if is_grabbing s then some s else none) (after_pointer past p)
          ∙ grab_of-is_grabbing (focus p past) (pressed p past),
      contains-pressed p b past,
      get-active_keyboards (after past).keyboards k ks ∙ after_keyboard past k,
    )
