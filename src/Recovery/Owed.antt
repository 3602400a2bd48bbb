-- ===== src/Recovery/Owed.antt =====
-- src/lib.rs: the messages that the client gets for the buffers and callbacks that
-- `recover_state_after_reconnect` answers for.
use Prim.Native.String.{String}
use wl_resprox.Prelude.{ℕ, ◌≡◌, refl, List, [], ◌∷◌, ◌++◌, none, some, Option-cases, inl, inr}
use wl_resprox.Wire.Words.{Bytes, put_u32}
use wl_resprox.Wire.Header.{build_message}
use wl_resprox.Protocol.{event_opcode}
use wl_resprox.Shadow.Table.{ShadowTable, interface, host_id}
use wl_resprox.Relay.Session.{World, Conn, write_message}
use wl_resprox.Relay.Synthesize.{
  send_event, delete_id_opcode, send_delete_id, synthesize_frame_done,
}
use wl_resprox.Recovery.State.{Recovery}
use wl_resprox.Recovery.Answers.{release_opcode, release_buffers, answer_frames, answer}

-- One message after the other, whatever becomes of each.
unfoldable pub send_all : List Bytes → Conn → Conn
send_all [] c = c
send_all (msg ∷ rest) c = send_all rest (write_message c msg []).1

send_all-append :
    (xs ys : List Bytes) (c : Conn) → send_all (xs ++ ys) c ≡ send_all ys (send_all xs c)
unfolding send_all
send_all-append [] ys c = refl
send_all-append (x ∷ xs) ys c = send_all-append xs ys _

module _ {B I : Type 0} (W : World B I) where
  -- The event of this name from an object of this interface, if it has one.
  unfoldable pub event_message : I → ℕ → String → Bytes → List Bytes
  event_message iface sender name payload = elim (event_opcode W.protocol iface name) [
    | none ↦ []
    | some opcode ↦ build_message W.endian sender opcode payload ∷ []
  ]

  -- `release`, for a buffer that has an interface and a host id.
  unfoldable pub release_message : ShadowTable B I → ℕ → List Bytes
  release_message objects buffer = elim (interface W.protocol W.ids objects buffer) [
    | none ↦ []
    | some iface ↦ elim (host_id W.protocol W.ids objects buffer) [
      | none ↦ []
      | some host ↦ event_message iface buffer "release" []
    ]
  ]

  unfoldable pub delete_id_message : ShadowTable B I → ℕ → List Bytes
  delete_id_message objects id = elim (interface W.protocol W.ids objects 1) [
    | none ↦ []
    | some iface ↦ event_message iface 1 "delete_id" (put_u32 W.endian [] id)
  ]

  -- `done`, at time 0, and the `delete_id` of the callback, if it has an interface.
  unfoldable pub done_messages : ShadowTable B I → ℕ → List Bytes
  done_messages objects callback = elim (interface W.protocol W.ids objects callback) [
    | none ↦ []
    | some iface ↦
        event_message iface callback "done" (put_u32 W.endian [] 0)
        ++ delete_id_message objects callback
  ]

  unfoldable pub each : (ℕ → List Bytes) → List ℕ → List Bytes
  each f [] = []
  each f (x ∷ xs) = f x ++ each f xs

  release_buffers_lem :
      (objects : ShadowTable B I) (buffers : List ℕ) (gtk : Conn)
      → release_buffers W objects buffers gtk
        ≡ send_all (each (release_message objects) buffers) gtk
  unfolding release_buffers each send_all release_opcode release_message event_message send_event
  release_buffers_lem objects [] gtk = refl
  release_buffers_lem objects (b ∷ rest) gtk =
      elim (Option-cases (interface W.protocol W.ids objects b)) [
        | inl missing ↦
            rw (missing, release_buffers, each, release_message, release_opcode)
              (release_buffers_lem objects rest gtk)
        | inr (iface, known) ↦ elim (Option-cases (host_id W.protocol W.ids objects b)) [
          | inl unmapped ↦
              rw (known, unmapped, release_buffers, each, release_message, release_opcode)
                (release_buffers_lem objects rest gtk)
          | inr (host, mapped) ↦ elim (Option-cases (event_opcode W.protocol iface "release")) [
            | inl unnamed ↦
                rw
                  (
                    known, mapped, unnamed, release_buffers, each, release_message, release_opcode,
                    event_message,
                  )
                  (release_buffers_lem objects rest gtk)
            | inr (opcode, found) ↦
                rw
                  (
                    known, mapped, found, release_buffers, each, release_message, release_opcode,
                    event_message,
                  )
                  (release_buffers_lem objects rest _)
          ]
        ]
      ]

  send_delete_id_lem :
      (dst : Conn) (objects : ShadowTable B I) (id : ℕ)
      → send_delete_id W dst objects id ≡ send_all (delete_id_message objects id) dst
  unfolding send_delete_id delete_id_opcode delete_id_message event_message send_all send_event
  send_delete_id_lem dst objects id = elim (Option-cases (interface W.protocol W.ids objects 1)) [
    | inl missing ↦ rw (missing, send_delete_id, delete_id_opcode, delete_id_message) refl
    | inr (iface, known) ↦ elim (Option-cases (event_opcode W.protocol iface "delete_id")) [
      | inl unnamed ↦
          rw (known, unnamed, send_delete_id, delete_id_opcode, delete_id_message, event_message)
            refl
      | inr (opcode, found) ↦
          rw (known, found, send_delete_id, delete_id_opcode, delete_id_message, event_message) refl
    ]
  ]

  synthesize_frame_done_lem :
      (dst : Conn) (objects : ShadowTable B I) (callback : ℕ)
      → synthesize_frame_done W dst objects callback ≡ send_all (done_messages objects callback) dst
  unfolding synthesize_frame_done done_messages event_message send_all send_event
  synthesize_frame_done_lem dst objects callback =
      elim (Option-cases (interface W.protocol W.ids objects callback)) [
        | inl missing ↦ rw (missing, synthesize_frame_done, done_messages) refl
        | inr (iface, known) ↦ elim (Option-cases (event_opcode W.protocol iface "done")) [
          | inl unnamed ↦
              rw (known, unnamed, synthesize_frame_done, done_messages, event_message)
                (send_delete_id_lem dst objects callback)
          | inr (opcode, found) ↦
              rw (known, found, synthesize_frame_done, done_messages, event_message)
                (send_delete_id_lem _ objects callback)
        ]
      ]

  answer_frames_lem :
      (objects : ShadowTable B I) (callbacks : List ℕ) (gtk : Conn)
      → answer_frames W objects callbacks gtk
        ≡ send_all (each (done_messages objects) callbacks) gtk
  unfolding answer_frames each send_all
  answer_frames_lem objects [] gtk = refl
  answer_frames_lem objects (callback ∷ rest) gtk =
      rw
        (
          synthesize_frame_done_lem gtk objects callback,
          send_all-append (done_messages objects callback) (each (done_messages objects) rest) gtk,
        )
        (answer_frames_lem objects rest (send_all (done_messages objects callback) gtk))

  -- What the client is owed for these buffers and callbacks.
  unfoldable pub owed_messages : ShadowTable B I → List ℕ → List ℕ → List Bytes
  owed_messages objects buffers callbacks =
      each (release_message objects) buffers ++ each (done_messages objects) callbacks

  pub answer_lem :
      (s : Recovery B I)
      → (answer W s).gtk.conn
        ≡ send_all
            (owed_messages s.objects s.buffer_flow.in_flight s.pending_frames.awaiting_done)
            s.gtk.conn
  unfolding answer owed_messages wl_resprox.Trackers.PendingFrames.drain_awaiting_done
      wl_resprox.Trackers.BufferFlow.drain_in_flight
  answer_lem s =
      let releases = each (release_message s.objects) s.buffer_flow.in_flight in
      rw
        (
          send_all-append releases (each (done_messages s.objects) s.pending_frames.awaiting_done)
              s.gtk.conn,
          release_buffers_lem s.objects s.buffer_flow.in_flight s.gtk.conn,
        )
        (answer_frames_lem s.objects s.pending_frames.awaiting_done (send_all releases s.gtk.conn))
