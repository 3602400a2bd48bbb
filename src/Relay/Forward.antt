-- ===== src/Relay/Forward.antt =====
-- src/lib.rs: the end of a message's way: its sender's id, its descriptors, and the write.
use wl_resprox.Prelude.{
  ℕ, zero, suc, ◌+◌, ◌*◌, ◌^◌, Bool, ◌&&◌, ◌||◌, List, [], ◌∷◌, ◌++◌, Option, none, some,
  if◌then◌else◌,
}
use wl_resprox.Prelude.Map.{get, insert}
use wl_resprox.Wire.Words.{Bytes, read_u32}
use wl_resprox.Wire.Header.{write_sender_id}
use wl_resprox.Wire.Text.{read_str}
use wl_resprox.Interfaces.{bytes_eq, codes}
use wl_resprox.Shadow.Table.{host_id, unallocate_host_id, remove_guest}
use wl_resprox.Recreation.Graph
use wl_resprox.Recreation.Graph.{Recreatable, DmabufPlane, shm_pool, record_recipe}
use wl_resprox.Relay.Session.{
  World, Session, Conn, Direction, client_to_host, host_to_client, write_message,
}
use wl_resprox.Relay.Synthesize.{send_delete_id, synthesize_frame_done}
use wl_resprox.Relay.Capture.{Incoming, is_client_to_host, is_request, is_event, ◌>>=◌}
use wl_resprox.Relay.Observe.{payload_of}

-- What became of a message, by the recorder's words; `dropped_no_sender` is only logged.
pub data Outcome : Type 0 where
  relayed dropped_frozen dropped_unknown dropped_untranslatable dropped_unresolvable_child : Outcome
  dropped_untracked_delete_id dropped_stale_generation dropped_parse_error : Outcome
  dropped_no_sender synthetic_clipboard : Outcome

-- `is_cacheable_mime`.
unfoldable pub is_cacheable_mime : Bytes → Bool
unfolding bytes_eq
is_cacheable_mime mime =
    bytes_eq mime (codes "text/plain")
    || bytes_eq mime (codes "text/plain;charset=utf-8")
    || bytes_eq mime (codes "UTF8_STRING")
    || bytes_eq mime (codes "STRING")
    || bytes_eq mime (codes "TEXT")
    || bytes_eq mime (codes "image/png")

-- Up to `n` descriptors off the front of the queue, and the rest.
unfoldable pub pop_fds : ℕ → List ℕ → List ℕ × List ℕ
pop_fds zero queue = ([], queue)
pop_fds (suc n) [] = ([], [])
pop_fds (suc n) (fd ∷ queue) = let (taken, rest) = pop_fds n queue in (fd ∷ taken, rest)

-- `Vec::pop`: the last element, and the others.
unfoldable pub pop_last : List ℕ → Option (ℕ × List ℕ)
pop_last [] = none
pop_last (x ∷ xs) = elim (pop_last xs) [ none ↦ some (x, []) | some (y, init) ↦ some (y, x ∷ init) ]

module _ {B I : Type 0} (W : World B I) where
  -- The sender's id on the receiving side.
  unfoldable pub other_side_sender : Direction → ℕ → Session B I → Option ℕ
  unfolding host_id
  other_side_sender client_to_host sender s = host_id W.protocol W.ids s.objects sender
  other_side_sender host_to_client sender s = some sender

  -- The object that a dropped message created is undone, and its host id given back.
  unfoldable pub roll_back : Incoming I → Option ℕ → Session B I → Session B I
  unfolding host_id unallocate_host_id remove_guest Graph.remove is_client_to_host
  roll_back x none s = s
  roll_back x (some phantom) s =
      let objects =
        if is_client_to_host x.direction
        then (elim (host_id W.protocol W.ids s.objects phantom) [
          | none ↦ s.objects
          | some h ↦ unallocate_host_id W.protocol W.ids s.objects h
        ])
        else s.objects in
      record s {
        objects = remove_guest W.protocol W.ids objects phantom;
        graph = Graph.remove s.graph phantom;
      }

  -- The client is answered in the host's stead: a destructor with `delete_id`, a `frame` with
  -- `done` and `delete_id`.
  unfoldable pub answer_for_host : Incoming I → Option ℕ → Session B I → Session B I
  unfolding is_client_to_host is_request send_delete_id synthesize_frame_done remove_guest
      Graph.remove
  answer_for_host x created s =
      if is_client_to_host x.direction && x.desc.is_destructor
      then record s {
        src = send_delete_id W s.src s.objects x.guest_sender_id;
        objects = remove_guest W.protocol W.ids s.objects x.guest_sender_id;
        graph = Graph.remove s.graph x.guest_sender_id;
      }
      else if is_request W x "wl_surface" "frame"
      then (elim created [
        | none ↦ s
        | some callback ↦ record s { src = synthesize_frame_done W s.src s.objects callback }
      ])
      else s

  -- A copy of a clipboard transfer: the last descriptor is exchanged for the stand-in.
  unfoldable pub tee_clipboard : Incoming I → Bytes → List ℕ → Session B I → List ℕ × Session B I
  unfolding is_event read_str is_cacheable_mime pop_last
  tee_clipboard x msg fds s =
      if is_event W x "wl_data_source" "send"
      then (elim (read_str W.endian (payload_of msg) 0) [
        | none ↦ (fds, s)
        | some (mime, next) ↦
            if is_cacheable_mime mime
            then (elim (pop_last fds) [
              | none ↦ (fds, s)
              | some (real, others) ↦ elim (W.start_tee real) [
                | none ↦ (others, s)
                | some stand_in ↦ (
                  others ++ stand_in ∷ [],
                  record s { tees = s.tees ++ (real, stand_in, mime) ∷ [] },
                )
              ]
            ])
            else (fds, s)
      ])
      else (fds, s)

  -- One write, whose failure is only logged; nothing while frozen.
  unfoldable pub write_to : Option Conn → Bytes → List ℕ → Session B I → Outcome × Session B I
  unfolding write_message
  write_to none msg fds s = (dropped_frozen, s)
  write_to (some dst) msg fds s = (relayed, record s { dst = some (write_message dst msg fds).1 })

  unfoldable pub write_out : Bytes → List ℕ → Session B I → Outcome × Session B I
  unfolding write_to
  write_out msg fds s = write_to s.dst msg fds s

  -- The word after the new id.
  unfoldable pub pool_size : Incoming I → Bytes → Option ℕ
  unfolding read_u32
  pool_size x msg = do off ← x.walk.new_id_offset; read_u32 W.endian (payload_of msg) (off + 4)

  -- `create_pool` keeps the descriptor of the pool.
  unfoldable pub retain_pool : Incoming I → Bytes → Option ℕ → List ℕ → Session B I → Session B I
  unfolding is_request pool_size pop_last record_recipe
  retain_pool x msg created fds s =
      if is_request W x "wl_shm" "create_pool"
      then (elim created [
        | none ↦ s
        | some pool ↦ elim (pop_last fds) [
          | none ↦ s
          | some (fd, others) ↦
              let size : ℕ = elim (pool_size x msg) [ none ↦ 0 | some v ↦ v ] in
              record s { graph = record_recipe s.graph pool (shm_pool x.guest_sender_id fd size) }
        ]
      ])
      else s

  -- The fields of `add`, with the two halves of the modifier put together.
  unfoldable pub read_plane : Bytes → ℕ → Option DmabufPlane
  unfolding read_u32
  read_plane payload fd = do
    plane_idx ← read_u32 W.endian payload 0
    plane_offset ← read_u32 W.endian payload 4
    stride ← read_u32 W.endian payload 8
    modifier_hi ← read_u32 W.endian payload 12
    modifier_lo ← read_u32 W.endian payload 16
    some (record {
      fd = fd;
      plane_idx = plane_idx;
      offset = plane_offset;
      stride = stride;
      modifier = modifier_hi * 2 ^ 32 + modifier_lo;
    })

  -- `add` keeps the plane for the buffer to come.
  unfoldable pub retain_plane : Incoming I → Bytes → List ℕ → Session B I → Session B I
  unfolding is_request pop_last read_plane get insert
  retain_plane x msg fds s =
      if is_request W x "zwp_linux_buffer_params_v1" "add"
      then (elim (pop_last fds) [
        | none ↦ s
        | some (fd, others) ↦ elim (read_plane (payload_of msg) fd) [
          | none ↦ s
          | some plane ↦ elim (get x.guest_sender_id s.pending_dmabuf_planes) [
            | none ↦ s
            | some (dmabuf, planes) ↦ record s {
              pending_dmabuf_planes =
                  insert x.guest_sender_id (dmabuf, planes ++ plane ∷ []) s.pending_dmabuf_planes;
            }
          ]
        ]
      ])
      else s

  -- The message's descriptors are taken off the queue, and it goes out.
  unfoldable pub send_addressed :
      Incoming I → Bytes → Option ℕ → Session B I → Outcome × Session B I
  unfolding pop_fds tee_clipboard write_out retain_pool retain_plane
  send_addressed x msg created s =
      let (fds, queue) = pop_fds x.walk.fd_count s.src.read_fds in
      let taken : Session B I = record s { src = record s.src { read_fds = queue } } in
      let (fds', teed) = tee_clipboard x msg fds taken in
      let (outcome, written) = write_out msg fds' teed in
      (outcome, retain_plane x msg fds' (retain_pool x msg created fds' written))

  -- The sender's id is rewritten first. The source cannot fail here: the message has a header.
  unfoldable pub send_on : Incoming I → ℕ → Bytes → Option ℕ → Session B I → Outcome × Session B I
  unfolding write_sender_id send_addressed
  send_on x sender msg created s = elim (write_sender_id W.endian msg sender) [
    | none ↦ (dropped_parse_error, s)
    | some addressed ↦ send_addressed x addressed created s
  ]

  unfoldable pub forward : Incoming I → Bytes → Option ℕ → Session B I → Outcome × Session B I
  unfolding other_side_sender answer_for_host roll_back send_on
  forward x msg created s = elim (other_side_sender x.direction x.guest_sender_id s) [
    | none ↦ (dropped_no_sender, roll_back x created (answer_for_host x created s))
    | some sender ↦ send_on x sender msg created s
  ]
