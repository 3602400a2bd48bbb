-- ===== src/Trackers/Grabs.antt =====
-- src/grab_state.rs: pointer and keyboard focus, and the pressed buttons.
use wl_resprox.Prelude.{
  ℕ, Bool, true, false, not, ◌||◌, List, [], ◌∷◌, ◌++◌, Option, none, some, if◌then◌else◌, ◌==◌,
}
use wl_resprox.Prelude.Map.{Map, get, insert, contains, discard}

pub record PointerState : Type 0 where
  pub entered_surface : Option ℕ
  pub pressed_buttons : List ℕ

pub record KeyboardState : Type 0 where
  pub entered_surface : Option ℕ

pub record GrabTracker : Type 0 where
  pub pointers : Map PointerState
  pub keyboards : Map KeyboardState

abbrev pub button_state_pressed : ℕ
button_state_pressed = 1

abbrev pub no_pointer : PointerState
no_pointer = record { entered_surface = none; pressed_buttons = [] }

unfoldable pub new : GrabTracker
new = record { pointers = []; keyboards = [] }

-- `pointers.entry(id).or_default()`.
unfoldable pub pointer_or_default : ℕ → Map PointerState → PointerState
pointer_or_default id m = elim (get id m) [ none ↦ no_pointer | some s ↦ s ]

unfoldable pub on_pointer_enter : GrabTracker → ℕ → ℕ → GrabTracker
unfolding pointer_or_default
on_pointer_enter t id surface =
    let s = pointer_or_default id t.pointers in
    record t { pointers = insert id (record s { entered_surface = some surface }) t.pointers }

unfoldable pub on_pointer_leave : GrabTracker → ℕ → GrabTracker
on_pointer_leave t id = elim (get id t.pointers) [
  | none ↦ t
  | some s ↦ record t { pointers = insert id (record s { entered_surface = none }) t.pointers }
]

-- The new list of pressed buttons.
unfoldable pub press : List ℕ → ℕ → ℕ → List ℕ
press pressed button state =
    if state == button_state_pressed
    then if not (contains button pressed) then pressed ++ button ∷ [] else pressed
    else discard button pressed

unfoldable pub on_pointer_button : GrabTracker → ℕ → ℕ → ℕ → GrabTracker
unfolding pointer_or_default press
on_pointer_button t id button state =
    let s = pointer_or_default id t.pointers in
    record t {
      pointers =
          insert id (record s { pressed_buttons = press s.pressed_buttons button state })
            t.pointers;
    }

unfoldable pub on_keyboard_enter : GrabTracker → ℕ → ℕ → GrabTracker
on_keyboard_enter t id surface = record t {
  keyboards = insert id (record { entered_surface = some surface }) t.keyboards;
}

unfoldable pub on_keyboard_leave : GrabTracker → ℕ → GrabTracker
on_keyboard_leave t id = elim (get id t.keyboards) [
  | none ↦ t
  | some s ↦ record t { keyboards = insert id (record { entered_surface = none }) t.keyboards }
]

abbrev pub is_some {ℓ} : {A : Type ℓ} → Option A → Bool
is_some none = false
is_some (some a) = true

abbrev pub is_empty {ℓ} : {A : Type ℓ} → List A → Bool
is_empty [] = true
is_empty (x ∷ xs) = false

unfoldable pub is_grabbing : PointerState → Bool
is_grabbing s = is_some s.entered_surface || not (is_empty s.pressed_buttons)

unfoldable pub active_pointers : Map PointerState → Map PointerState
unfolding is_grabbing
active_pointers [] = []
active_pointers ((id, s) ∷ m) =
    if is_grabbing s then (id, s) ∷ active_pointers m else active_pointers m

-- The pointers with focus or pressed buttons: id, surface and buttons.
unfoldable pub active_pointer_grabs : GrabTracker → Map PointerState
unfolding active_pointers
active_pointer_grabs t = active_pointers t.pointers

unfoldable pub active_keyboards : Map KeyboardState → Map ℕ
active_keyboards [] = []
active_keyboards ((id, s) ∷ m) = elim s.entered_surface [
  | none ↦ active_keyboards m
  | some surface ↦ (id, surface) ∷ active_keyboards m
]

unfoldable pub active_keyboard_grabs : GrabTracker → Map ℕ
unfolding active_keyboards
active_keyboard_grabs t = active_keyboards t.keyboards

unfoldable pub clear : GrabTracker → GrabTracker
clear t = record { pointers = []; keyboards = [] }
