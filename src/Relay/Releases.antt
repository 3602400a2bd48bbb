-- ===== src/Relay/Releases.antt =====
-- src/lib.rs: the messages that the client gets from `synthesize_grab_releases`.
use wl_resprox.Prelude.{
  ℕ, ◌+◌, ◌%◌, ◌^◌, ◌≡◌, refl, List, [], ◌∷◌, ◌++◌, Option, none, some, Option-cases, inl, inr,
}
use wl_resprox.Prelude.Map.{Map}
use wl_resprox.Wire.Words.{Bytes, put_u32}
use wl_resprox.Wire.Header.{build_message}
use wl_resprox.Protocol.{event_opcode}
use wl_resprox.Shadow.Table.{ShadowTable, interface}
use wl_resprox.Trackers.Grabs.{
  GrabTracker, PointerState, active_pointer_grabs, active_keyboard_grabs,
}
use wl_resprox.Relay.Session.{World, Conn, write_message}
use wl_resprox.Relay.Synthesize.{
  send_event, next_serial, release_buttons, release_focus, release_pointers, release_keyboards,
  synthesize_grab_releases,
}

-- A message with its serial still to be filled in.
abbrev pub Numbered : Type 0
Numbered = ℕ → Bytes

-- One message after the other, whatever becomes of each, with serials that count up.
unfoldable pub send_numbered : List Numbered → ℕ × Conn → ℕ × Conn
send_numbered [] out = out
send_numbered (f ∷ fs) (serial, c) =
    send_numbered fs ((serial + 1) % 2 ^ 32, (write_message c (f serial) []).1)

send_numbered-append :
    (xs ys : List Numbered) (out : ℕ × Conn)
    → send_numbered (xs ++ ys) out ≡ send_numbered ys (send_numbered xs out)
unfolding send_numbered
send_numbered-append [] ys out = refl
send_numbered-append (f ∷ fs) ys (serial, c) = send_numbered-append fs ys _

module _ {B I : Type 0} (W : World B I) where
  -- `leave` of a focus, which is there or not.
  unfoldable pub leave_messages : I → ℕ → Option ℕ → List Numbered
  leave_messages iface device none = []
  leave_messages iface device (some surface) = elim (event_opcode W.protocol iface "leave") [
    | none ↦ []
    | some opcode ↦
        (λ serial.
          build_message W.endian device opcode
            (put_u32 W.endian (put_u32 W.endian [] serial) surface))
        ∷ []
  ]

  -- `button` with a release for each pressed button, at time 0.
  unfoldable pub up_messages : ℕ → ℕ → List ℕ → List Numbered
  up_messages pointer opcode [] = []
  up_messages pointer opcode (button ∷ rest) =
      (λ serial.
        let e = W.endian in
        build_message e pointer opcode
          (put_u32 e (put_u32 e (put_u32 e (put_u32 e [] serial) 0) button) 0))
      ∷ up_messages pointer opcode rest

  unfoldable pub button_messages : I → ℕ → List ℕ → List Numbered
  button_messages iface pointer buttons = elim (event_opcode W.protocol iface "button") [
    | none ↦ []
    | some opcode ↦ up_messages pointer opcode buttons
  ]

  unfoldable pub pointer_messages : ShadowTable B I → Map PointerState → List Numbered
  pointer_messages objects [] = []
  pointer_messages objects ((pointer, s) ∷ rest) =
      (elim (interface W.protocol W.ids objects pointer) [
        | none ↦ []
        | some iface ↦
            leave_messages iface pointer s.entered_surface
            ++ button_messages iface pointer s.pressed_buttons
      ])
      ++ pointer_messages objects rest

  unfoldable pub keyboard_messages : ShadowTable B I → Map ℕ → List Numbered
  keyboard_messages objects [] = []
  keyboard_messages objects ((keyboard, surface) ∷ rest) =
      (elim (interface W.protocol W.ids objects keyboard) [
        | none ↦ []
        | some iface ↦ leave_messages iface keyboard (some surface)
      ])
      ++ keyboard_messages objects rest

  -- What undoes all grabs: the pointers, then the keyboards.
  unfoldable pub grab_messages : ShadowTable B I → GrabTracker → List Numbered
  grab_messages objects grabs =
      pointer_messages objects (active_pointer_grabs grabs)
      ++ keyboard_messages objects (active_keyboard_grabs grabs)

  release_focus_lem :
      (iface : I) (device : ℕ) (focus : Option ℕ) (out : ℕ × Conn)
      → release_focus W iface device focus out
        ≡ send_numbered (leave_messages iface device focus) out
  unfolding release_focus send_numbered leave_messages send_event next_serial
  release_focus_lem iface device none (serial, gtk) = refl
  release_focus_lem iface device (some surface) (serial, gtk) =
      elim (Option-cases (event_opcode W.protocol iface "leave")) [
        | inl missing ↦ rw (missing, release_focus, leave_messages) refl
        | inr (opcode, found) ↦ rw (found, release_focus, leave_messages) refl
      ]

  release_buttons_lem :
      (pointer opcode : ℕ) (buttons : List ℕ) (out : ℕ × Conn)
      → release_buttons W pointer opcode buttons out
        ≡ send_numbered (up_messages pointer opcode buttons) out
  unfolding release_buttons send_numbered up_messages send_event next_serial
  release_buttons_lem pointer opcode [] (serial, gtk) = refl
  release_buttons_lem pointer opcode (button ∷ rest) (serial, gtk) =
      release_buttons_lem pointer opcode rest _

  release_pointers_lem :
      (objects : ShadowTable B I) (m : Map PointerState) (out : ℕ × Conn)
      → release_pointers W objects m out ≡ send_numbered (pointer_messages objects m) out
  unfolding release_pointers send_numbered pointer_messages button_messages
  release_pointers_lem objects [] out = refl
  release_pointers_lem objects ((pointer, s) ∷ rest) (n, gtk) =
      elim (Option-cases (interface W.protocol W.ids objects pointer)) [
        | inl missing ↦
            rw (missing, release_pointers, pointer_messages)
              (release_pointers_lem objects rest (n, gtk))
        | inr (iface, known) ↦
            let left = leave_messages iface pointer s.entered_surface in
            elim (Option-cases (event_opcode W.protocol iface "button")) [
              | inl none' ↦
                  rw
                    (
                      known,
                      none',
                      release_pointers,
                      pointer_messages,
                      button_messages,
                      send_numbered-append (left ++ []) (pointer_messages objects rest) (n, gtk),
                      send_numbered-append left [] (n, gtk),
                      release_focus_lem iface pointer s.entered_surface (n, gtk),
                    )
                    (release_pointers_lem objects rest (send_numbered left (n, gtk)))
              | inr (opcode, found) ↦
                  let up = up_messages pointer opcode s.pressed_buttons in
                  rw
                    (
                      known,
                      found,
                      release_pointers,
                      pointer_messages,
                      button_messages,
                      send_numbered-append (left ++ up) (pointer_messages objects rest) (n, gtk),
                      send_numbered-append left up (n, gtk),
                      release_focus_lem iface pointer s.entered_surface (n, gtk),
                      release_buttons_lem pointer opcode s.pressed_buttons
                          (send_numbered left (n, gtk)),
                    )
                    (release_pointers_lem objects rest
                      (send_numbered up (send_numbered left (n, gtk))))
            ]
      ]

  release_keyboards_lem :
      (objects : ShadowTable B I) (m : Map ℕ) (out : ℕ × Conn)
      → release_keyboards W objects m out ≡ send_numbered (keyboard_messages objects m) out
  unfolding release_keyboards send_numbered keyboard_messages
  release_keyboards_lem objects [] out = refl
  release_keyboards_lem objects ((keyboard, surface) ∷ rest) (n, gtk) =
      elim (Option-cases (interface W.protocol W.ids objects keyboard)) [
        | inl missing ↦
            rw (missing, release_keyboards, keyboard_messages)
              (release_keyboards_lem objects rest (n, gtk))
        | inr (iface, known) ↦
            let left = leave_messages iface keyboard (some surface) in
            rw
              (
                known,
                release_keyboards,
                keyboard_messages,
                send_numbered-append left (keyboard_messages objects rest) (n, gtk),
                release_focus_lem iface keyboard (some surface) (n, gtk),
              )
              (release_keyboards_lem objects rest (send_numbered left (n, gtk)))
      ]

  pub synthesize_grab_releases_lem :
      (gtk : Conn) (objects : ShadowTable B I) (grabs : GrabTracker)
      → (synthesize_grab_releases W gtk objects grabs).0
        ≡ (send_numbered (grab_messages objects grabs) (1, gtk)).1
  unfolding synthesize_grab_releases grab_messages
  synthesize_grab_releases_lem gtk objects grabs =
      let pointers = active_pointer_grabs grabs in
      let keyboards = active_keyboard_grabs grabs in
      rw
        (
          release_pointers_lem objects pointers (1, gtk),
          release_keyboards_lem objects keyboards
              (send_numbered (pointer_messages objects pointers) (1, gtk)),
          send_numbered-append (pointer_messages objects pointers)
              (keyboard_messages objects keyboards) (1, gtk),
        )
        refl
