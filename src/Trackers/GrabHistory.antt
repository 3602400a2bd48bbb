-- ===== src/Trackers/GrabHistory.antt =====
-- src/grab_state.rs: the history of events, and what it holds grabbed.
use wl_resprox.Prelude.{
  ℕ, Bool, false, not, ◌&&◌, ◌++◌, List, [], ◌∷◌, Option, none, some, if◌then◌else◌, ◌==◌,
}
use wl_resprox.Prelude.Map.{discard}
use wl_resprox.Trackers.Grabs.{
  PointerState, GrabTracker, new, on_pointer_enter, on_pointer_leave, on_pointer_button,
  on_keyboard_enter, on_keyboard_leave, clear,
}

pub data Call : Type 0 where
  enters : ℕ → ℕ → Call
  leaves : ℕ → Call
  buttons : ℕ → ℕ → ℕ → Call
  key_enters : ℕ → ℕ → Call
  key_leaves : ℕ → Call
  clears : Call

unfoldable pub step : GrabTracker → Call → GrabTracker
unfolding on_pointer_enter on_pointer_leave on_pointer_button on_keyboard_enter on_keyboard_leave
    clear
step t (enters p s) = on_pointer_enter t p s
step t (leaves p) = on_pointer_leave t p
step t (buttons p b st) = on_pointer_button t p b st
step t (key_enters k s) = on_keyboard_enter t k s
step t (key_leaves k) = on_keyboard_leave t k
step t clears = clear t

-- The tracker after the calls in `past`, newest first.
unfoldable pub after : List Call → GrabTracker
unfolding step new
after [] = new
after (c ∷ past) = step (after past) c

-- The surface that a pointer is on, and the buttons held on it, in the order of their presses.
unfoldable pub focus : ℕ → List Call → Option ℕ
focus p [] = none
focus p (enters q s ∷ past) = if p == q then some s else focus p past
focus p (leaves q ∷ past) = if p == q then none else focus p past
focus p (clears ∷ past) = none
focus p (_ ∷ past) = focus p past

-- Whether a button is down: its last event was a press, since the last clearing.
unfoldable pub is_down : ℕ → ℕ → List Call → Bool
is_down p b [] = false
is_down p b (buttons q c state ∷ past) = if p == q && b == c then state == 1 else is_down p b past
is_down p b (clears ∷ past) = false
is_down p b (_ ∷ past) = is_down p b past

-- The buttons that are down, in the order of the presses that they are down since.
unfoldable pub pressed : ℕ → List Call → List ℕ
unfolding is_down
pressed p [] = []
pressed p (buttons q b state ∷ past) =
    if not (p == q)
    then pressed p past
    else if not (state == 1)
    then discard b (pressed p past)
    else if is_down p b past
    then pressed p past
    else pressed p past ++ b ∷ []
pressed p (clears ∷ past) = []
pressed p (_ ∷ past) = pressed p past

-- What is to be released of a focus and pressed buttons: nothing if there is neither.
unfoldable pub grab_of : Option ℕ → List ℕ → Option PointerState
grab_of none [] = none
grab_of none (b ∷ bs) = some (record { entered_surface = none; pressed_buttons = b ∷ bs })
grab_of (some surface) bs = some (record { entered_surface = some surface; pressed_buttons = bs })

unfoldable pub key_focus : ℕ → List Call → Option ℕ
key_focus k [] = none
key_focus k (key_enters j s ∷ past) = if k == j then some s else key_focus k past
key_focus k (key_leaves j ∷ past) = if k == j then none else key_focus k past
key_focus k (clears ∷ past) = none
key_focus k (_ ∷ past) = key_focus k past
