-- ===== src/Relay/Splice.antt =====
-- src/lib.rs: re-offering cached clipboard content after a reconnect.
use wl_resprox.Prelude.{
  ℕ, Bool, true, false, List, [], ◌∷◌, ◌++◌, Option, none, some, if◌then◌else◌, ◌==◌, drop,
}
use wl_resprox.Wire.Words.{Bytes, put_u32}
use wl_resprox.Wire.Header.{build_message, header_len}
use wl_resprox.Wire.Text.{put_str, read_str}
use wl_resprox.Interfaces.{bytes_eq, codes}
use wl_resprox.Shadow.Table.{
  ShadowTable, host_id, find_guest_id_by_interface_name, allocate_host_id, unallocate_host_id,
}
use wl_resprox.Relay.Session.{World, Conn, Session, ReclaimState, write_message}

-- `ClipboardCache::get`.
unfoldable pub cache_get : Bytes → List (Bytes × Bytes) → Option Bytes
unfolding bytes_eq
cache_get mime [] = none
cache_get mime ((m, content) ∷ rest) = if bytes_eq m mime then some content else cache_get mime rest

unfoldable pub cached_mime_types : List (Bytes × Bytes) → List Bytes
cached_mime_types [] = []
cached_mime_types ((m, content) ∷ rest) = m ∷ cached_mime_types rest

-- The host connection, the table, and the reclaim state.
abbrev pub Spliced : Type 0 → Type 0 → Type 0
Spliced B I = Conn × ShadowTable B I × ReclaimState

module _ {B I : Type 0} (W : World B I) where
  -- `offer` for each type, up to the first write that fails.
  unfoldable pub offer_all : ℕ → List Bytes → Conn → Bool × Conn
  unfolding put_str build_message write_message
  offer_all source [] host = (true, host)
  offer_all source (mime ∷ rest) host =
      let (ok, host') =
        write_message host (build_message W.endian source 0 (put_str W.endian [] mime)) [] in
      let later = offer_all source rest host' in if ok then later else (false, host')

  -- From `get_data_device` on.
  unfoldable pub claim_selection : ℕ → ℕ → ℕ → ℕ → Spliced B I → Spliced B I
  unfolding put_u32 build_message write_message allocate_host_id unallocate_host_id
  claim_selection ddm source seat serial (host, objects, reclaim) =
      let e = W.endian in
      let (device, objects') = allocate_host_id W.protocol W.ids objects in
      let (got, host') =
        write_message host (build_message e ddm 1 (put_u32 e (put_u32 e [] device) seat)) [] in
      let (set, host'') =
        write_message host' (build_message e device 1 (put_u32 e (put_u32 e [] source) serial))
          [] in
      if got
      then (if set
          then (host'', objects', record reclaim { active_source_host_id = some source })
          else (host'', objects', reclaim))
      else (host', unallocate_host_id W.protocol W.ids objects' device, reclaim)

  -- From `create_data_source` on.
  unfoldable pub create_source : ℕ → ℕ → ℕ → List Bytes → Spliced B I → Spliced B I
  unfolding put_u32 build_message write_message allocate_host_id unallocate_host_id offer_all
      claim_selection
  create_source ddm seat serial mimes (host, objects, reclaim) =
      let e = W.endian in
      let (source, objects') = allocate_host_id W.protocol W.ids objects in
      let (created, host') = write_message host (build_message e ddm 0 (put_u32 e [] source)) [] in
      let (offered, host'') = offer_all source mimes host' in
      if created
      then (if offered
          then claim_selection ddm source seat serial (host'', objects', reclaim)
          else (host'', objects', reclaim))
      else (host', unallocate_host_id W.protocol W.ids objects' source, reclaim)

  unfoldable pub bind_manager : ℕ × ℕ → ℕ → ℕ → ℕ → List Bytes → Spliced B I → Spliced B I
  unfolding put_u32 put_str build_message write_message allocate_host_id unallocate_host_id
      create_source
  bind_manager (ddm_name, ddm_version) registry seat serial mimes (host, objects, reclaim) =
      let e = W.endian in
      let (ddm, objects') = allocate_host_id W.protocol W.ids objects in
      let named = put_str e (put_u32 e [] ddm_name) (codes "wl_data_device_manager") in
      let payload = put_u32 e (put_u32 e named ddm_version) ddm in
      let (bound, host') = write_message host (build_message e registry 0 payload) [] in
      if bound
      then create_source ddm seat serial mimes (host', objects', reclaim)
      else (host', unallocate_host_id W.protocol W.ids objects' ddm, reclaim)

  -- The host id of the first object of an interface, if it translates.
  unfoldable pub find_host_id : ShadowTable B I → Option ℕ → Option ℕ
  unfolding host_id
  find_host_id objects none = none
  find_host_id objects (some guest) = host_id W.protocol W.ids objects guest

  -- The four things that a splice needs: content, the manager's global, a registry and a seat.
  unfoldable pub splice_with :
      ℕ → List Bytes → Option (ℕ × ℕ) → Option ℕ → Option ℕ → Spliced B I → Spliced B I
  unfolding bind_manager
  splice_with serial (m ∷ ms) (some ddm) (some registry) (some seat) out =
      bind_manager ddm registry seat serial (m ∷ ms) out
  splice_with serial _ _ _ _ out = out

  unfoldable pub attempt_clipboard_splice : List (Bytes × Bytes) → ℕ → Spliced B I → Spliced B I
  unfolding cached_mime_types find_guest_id_by_interface_name find_host_id splice_with
  attempt_clipboard_splice cache serial (host, objects, reclaim) =
      let find_name = find_guest_id_by_interface_name W.protocol W.ids objects in
      splice_with serial (cached_mime_types cache) reclaim.data_device_manager_global
        (find_host_id objects (find_name "wl_registry"))
        (find_host_id objects (find_name "wl_seat"))
        (host, objects, record reclaim { pending = false })

  -- The content for a type, to a pipe.
  unfoldable pub serve_mime : ℕ → Option (Bytes × ℕ) → Session B I → Session B I
  unfolding cache_get
  serve_mime fd none s = s
  serve_mime fd (some (mime, next)) s = elim (cache_get mime s.clipboard_cache) [
    | none ↦ s
    | some content ↦
        if W.is_pipe fd then record s { serves = s.serves ++ (fd, content) ∷ [] } else s
  ]

  -- `send` with its descriptor taken off the queue.
  unfoldable pub serve_from : List ℕ → Bytes → Session B I → Session B I
  unfolding read_str serve_mime
  serve_from [] msg s = s
  serve_from (fd ∷ fds) msg s =
      serve_mime fd (read_str W.endian (drop header_len msg) 0)
        (record s { src = record s.src { read_fds = fds } })

  unfoldable pub handle_synthetic_clipboard_event : Bytes → ℕ → Session B I → Session B I
  unfolding serve_from
  handle_synthetic_clipboard_event msg opcode s =
      if opcode == 1
      then serve_from s.src.read_fds msg s
      else if opcode == 2
      then record s { reclaim = record s.reclaim { active_source_host_id = none } }
      else s
