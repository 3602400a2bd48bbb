-- ===== src/Relay/Queue.antt =====
-- src/lib.rs: what the steps before the write leave alone: the bytes and descriptors that have
-- arrived, and the connection that the message goes to.
use wl_resprox.Prelude.{
  ℕ, ◌≡◌, refl, ap, true, false, ◌&&◌, List, [], ◌∷◌, Option, none, some, if◌then◌else◌, arith,
}
use wl_resprox.Wire.Words.{Bytes, put_u32, read_u32}
use wl_resprox.Wire.Text.{put_str}
use wl_resprox.Wire.Header.{build_message}
use wl_resprox.Interfaces.{codes}
use wl_resprox.Shadow.Table.{ShadowTable, allocate_host_id}
use wl_resprox.Prelude.Map.{Map}
use wl_resprox.Recreation.Graph.{Recreatable, DmabufPlane}
use wl_resprox.Relay.Session.{
  World, Session, Conn, Direction, ReclaimState, client_to_host, host_to_client, write_message,
}
use wl_resprox.Relay.Synthesize.{send_event, send_delete_id, synthesize_frame_done}
use wl_resprox.Relay.Splice.{
  offer_all, claim_selection, create_source, bind_manager, splice_with, attempt_clipboard_splice,
}
use wl_resprox.Relay.Capture.{Incoming}
use wl_resprox.Relay.NewId.{
  record_captured, record_capture, create_object, remember_name, handle_new_id,
}
use wl_resprox.Relay.Observe.{
  handle_delete_id, observe_grabs, carries_serial, payload_of, splice_at, reclaim_clipboard,
  observe_toplevel, observe_sizes, observe_buffers, observe_callbacks,
}
use wl_resprox.Relay.Forward.{answer_for_host, roll_back}

-- The bytes and the descriptors that wait on a connection.
abbrev pub Waiting : Type 0
Waiting = Bytes × List ℕ

abbrev pub waiting : Conn → Waiting
waiting c = (c.read_buf, c.read_fds)

-- What a session has still to read, and where it writes.
abbrev pub Inputs : Type 0
Inputs = Waiting × Option Conn

abbrev pub inputs : {B I : Type 0} → Session B I → Inputs
inputs s = (waiting s.src, s.dst)

waiting-write_message :
    (c : Conn) (msg : Bytes) (fds : List ℕ) → waiting (write_message c msg fds).1 ≡ waiting c
unfolding write_message
waiting-write_message c msg fds = ground arith

module _ {B I : Type 0} (W : World B I) where
  pub waiting-send_event :
      (c : Conn) (sender opcode : ℕ) (p : Bytes)
      → waiting (send_event W c sender opcode p) ≡ waiting c
  unfolding send_event
  waiting-send_event c sender opcode p = waiting-write_message c _ []

  pub waiting-send_delete_id :
      (c : Conn) (t : ShadowTable B I) (id : ℕ) → waiting (send_delete_id W c t id) ≡ waiting c
  unfolding send_delete_id
  waiting-send_delete_id c t id = grind (arith, waiting-send_event)

  pub waiting-synthesize_frame_done :
      (c : Conn) (t : ShadowTable B I) (id : ℕ)
      → waiting (synthesize_frame_done W c t id) ≡ waiting c
  unfolding synthesize_frame_done
  waiting-synthesize_frame_done c t id = grind (arith, waiting-send_event, waiting-send_delete_id)

  pub inputs-handle_delete_id :
      (x : Incoming I) (msg : Bytes) (s : Session B I)
      → inputs (handle_delete_id W x msg s).1 ≡ inputs s
  unfolding handle_delete_id
  inputs-handle_delete_id x msg s = ground arith

  pub inputs-observe_grabs :
      (x : Incoming I) (msg : Bytes) (s : Session B I) → inputs (observe_grabs W x msg s) ≡ inputs s
  unfolding observe_grabs
  inputs-observe_grabs x msg s = ground arith

  pub inputs-observe_toplevel :
      (x : Incoming I) (msg : Bytes) (s : Session B I)
      → inputs (observe_toplevel W x msg s).1 ≡ inputs s
  unfolding observe_toplevel
  inputs-observe_toplevel x msg s = ground arith

  pub inputs-observe_sizes :
      (x : Incoming I) (msg : Bytes) (s : Session B I) → inputs (observe_sizes W x msg s) ≡ inputs s
  unfolding observe_sizes
  inputs-observe_sizes x msg s = ground arith

  pub inputs-observe_buffers :
      (x : Incoming I) (s : Session B I) → inputs (observe_buffers W x s) ≡ inputs s
  unfolding observe_buffers
  inputs-observe_buffers x s = ground arith

  pub inputs-observe_callbacks :
      (x : Incoming I) (created : Option ℕ) (s : Session B I)
      → inputs (observe_callbacks W x created s) ≡ inputs s
  unfolding observe_callbacks
  inputs-observe_callbacks x created s = ground arith

  pub inputs-record_captured :
      (d : Direction) (guest : ℕ) (r : Option (Recreatable I)) (planes : Map (ℕ × List DmabufPlane))
      (s : Session B I)
      → inputs (record_captured W d guest (r, planes) s) ≡ inputs s
  unfolding record_captured
  inputs-record_captured client_to_host guest none planes s = refl
  inputs-record_captured client_to_host guest (some r) planes s = refl
  inputs-record_captured host_to_client guest r planes s = refl

  pub inputs-create_object :
      (x : Incoming I) (msg : Bytes) (off : ℕ) (child : I) (s : Session B I)
      → inputs (create_object W x msg off child s).2 ≡ inputs s
  unfolding create_object record_capture
  inputs-create_object x msg off child s = inputs-record_captured x.direction _ _ _ _

  pub inputs-handle_new_id :
      (x : Incoming I) (msg : Bytes) (s : Session B I)
      → inputs (handle_new_id W x msg s).1 ≡ inputs s
  unfolding handle_new_id remember_name
  inputs-handle_new_id x msg s = grind (arith, inputs-create_object)

  pub inputs-roll_back :
      (x : Incoming I) (created : Option ℕ) (s : Session B I)
      → inputs (roll_back W x created s) ≡ inputs s
  unfolding roll_back
  inputs-roll_back x created s = ground arith

  pub inputs-answer_for_host :
      (x : Incoming I) (created : Option ℕ) (s : Session B I)
      → inputs (answer_for_host W x created s) ≡ inputs s
  unfolding answer_for_host
  inputs-answer_for_host x none s =
      ground (arith, waiting-send_delete_id s.src s.objects x.guest_sender_id)
  inputs-answer_for_host x (some id) s = ground (
    arith,
    waiting-send_delete_id s.src s.objects x.guest_sender_id,
    waiting-synthesize_frame_done s.src s.objects id,
  )

  -- The splice writes to the connection that it is given.
  pub waiting-offer_all :
      (source : ℕ) (mimes : List Bytes) (c : Conn)
      → waiting (offer_all W source mimes c).1 ≡ waiting c
  unfolding offer_all
  waiting-offer_all source [] c = refl
  waiting-offer_all source (mime ∷ mimes) c =
      let sent = write_message c (build_message W.endian source 0 (put_str W.endian [] mime)) [] in
      ground (
        arith,
        waiting-offer_all source mimes sent.1,
        waiting-write_message c (build_message W.endian source 0 (put_str W.endian [] mime)) [],
      )

  pub waiting-claim_selection :
      (ddm source seat serial : ℕ) (c : Conn) (t : ShadowTable B I) (r : ReclaimState)
      → waiting (claim_selection W ddm source seat serial (c, t, r)).0 ≡ waiting c
  unfolding claim_selection
  waiting-claim_selection ddm source seat serial c t r = grind (arith, waiting-write_message)

  pub waiting-create_source :
      (ddm seat serial : ℕ) (mimes : List Bytes) (c : Conn) (t : ShadowTable B I) (r : ReclaimState)
      → waiting (create_source W ddm seat serial mimes (c, t, r)).0 ≡ waiting c
  unfolding create_source
  waiting-create_source ddm seat serial mimes c t r =
      grind (arith, waiting-write_message, waiting-offer_all, waiting-claim_selection)

  pub waiting-bind_manager :
      (ddm : ℕ × ℕ) (registry seat serial : ℕ) (mimes : List Bytes) (c : Conn) (t : ShadowTable B I)
      (r : ReclaimState)
      → waiting (bind_manager W ddm registry seat serial mimes (c, t, r)).0 ≡ waiting c
  unfolding bind_manager
  waiting-bind_manager (name, version) registry seat serial mimes c t r =
      let e = W.endian in
      let (ddm, t') = allocate_host_id W.protocol W.ids t in
      let named = put_str e (put_u32 e [] name) (codes "wl_data_device_manager") in
      let bind = build_message e registry 0 (put_u32 e (put_u32 e named version) ddm) in
      let sent = write_message c bind [] in
      ground (
        arith,
        waiting-write_message c bind [],
        waiting-create_source ddm seat serial mimes sent.1 t' r,
      )

  pub waiting-splice_with :
      (serial : ℕ) (mimes : List Bytes) (ddm : Option (ℕ × ℕ)) (registry seat : Option ℕ) (c : Conn)
      (t : ShadowTable B I) (r : ReclaimState)
      → waiting (splice_with W serial mimes ddm registry seat (c, t, r)).0 ≡ waiting c
  unfolding splice_with
  waiting-splice_with serial (m ∷ ms) (some ddm) (some registry) (some seat) c t r =
      waiting-bind_manager ddm registry seat serial (m ∷ ms) c t r
  waiting-splice_with serial _ _ _ _ c t r = refl

  pub waiting-attempt_clipboard_splice :
      (cache : List (Bytes × Bytes)) (serial : ℕ) (c : Conn) (t : ShadowTable B I)
      (r : ReclaimState)
      → waiting (attempt_clipboard_splice W cache serial (c, t, r)).0 ≡ waiting c
  unfolding attempt_clipboard_splice
  waiting-attempt_clipboard_splice cache serial c t r = waiting-splice_with serial _ _ _ _ c t _

  pub inputs-splice_at :
      (serial : Option ℕ) (s : Session B I) → inputs (splice_at W serial s) ≡ inputs s
  unfolding splice_at
  inputs-splice_at none s = refl
  inputs-splice_at (some serial) s =
      ap (λ w. (w, s.dst))
        (waiting-attempt_clipboard_splice s.clipboard_cache serial s.src s.objects s.reclaim)

  pub inputs-reclaim_clipboard :
      (x : Incoming I) (msg : Bytes) (s : Session B I)
      → inputs (reclaim_clipboard W x msg s) ≡ inputs s
  unfolding reclaim_clipboard
  inputs-reclaim_clipboard x msg s =
      elim (s.reclaim.pending && carries_serial W x)
        as (λ b.
          inputs (if b then splice_at W (read_u32 W.endian (payload_of msg) 0) s else s)
          ≡ inputs s) [ false ↦ refl | true ↦ inputs-splice_at _ s ]
