-- ===== src/Tests/Fixtures.antt =====
-- A small protocol of five interfaces, a world, and sessions of two connections.
use Prim.Native.String.{String}
use text.Mathlib.Text.{◌==◌ as str_eq}
use wl_resprox.Prelude.{ℕ, ◌++◌, true, false, List, [], ◌∷◌, none, some, if◌then◌else◌}
use wl_resprox.Wire.Words.{Bytes, little, to_ne_bytes}
use wl_resprox.Wire.Header.{build_message}
use wl_resprox.Wire.Encode.{ArgumentType}
use wl_resprox.Protocol.{Protocol, MessageDesc}
use wl_resprox.Shadow.BiMap.{Pairing, pairing}
use wl_resprox.Shadow.Table.{ShadowTable, map_ids, bump_generation}
use wl_resprox.Shadow.Table
use wl_resprox.Recreation.Graph
use wl_resprox.Trackers.PendingFrames
use wl_resprox.Trackers.BufferFlow
use wl_resprox.Trackers.Grabs
use wl_resprox.Relay.Session.{World, Session, client_to_host}
use wl_resprox.Relay.Capture.{Incoming}

pub data Face : Type 0 where
  display registry surface callback shm : Face

abbrev pub face_name : Face → String
face_name display = "wl_display"
face_name registry = "wl_registry"
face_name surface = "wl_surface"
face_name callback = "wl_callback"
face_name shm = "wl_shm"

abbrev pub frame_desc : MessageDesc Face
frame_desc = record {
  name = "frame";
  signature = ArgumentType.new_id ∷ [];
  is_destructor = false;
  child_interface = some callback;
}

abbrev pub pool_desc : MessageDesc Face
pool_desc = record {
  name = "create_pool";
  signature = ArgumentType.new_id ∷ ArgumentType.fd ∷ ArgumentType.int ∷ [];
  is_destructor = false;
  child_interface = some callback;
}

abbrev pub bind_desc : MessageDesc Face
bind_desc = record {
  name = "bind";
  signature = ArgumentType.uint ∷ ArgumentType.str ∷ ArgumentType.uint ∷ ArgumentType.new_id ∷ [];
  is_destructor = false;
  child_interface = none;
}

abbrev pub delete_id_desc : MessageDesc Face
delete_id_desc = record {
  name = "delete_id";
  signature = ArgumentType.uint ∷ [];
  is_destructor = false;
  child_interface = none;
}

abbrev pub face_requests : Face → List (MessageDesc Face)
face_requests registry = bind_desc ∷ []
face_requests surface = frame_desc ∷ []
face_requests shm = pool_desc ∷ []
face_requests _ = []

abbrev pub face_events : Face → List (MessageDesc Face)
face_events display = delete_id_desc ∷ []
face_events _ = []

abbrev pub faces : Protocol Face
faces = record {
  name = face_name;
  version = λ i. 1;
  requests = face_requests;
  events = face_events;
  static_interface = λ s. if str_eq s "wl_display" then display else callback;
}

abbrev pub world : World Pairing Face
world = record {
  protocol = faces;
  ids = pairing;
  endian = little;
  client_pid = none;
  binary_name_for_pid = λ p. none;
  desktop_apps = record { ids = []; by_binary = [] };
  start_tee = λ fd. some fd;
  is_pipe = λ fd. true;
}

-- A surface, 5 for the client and 2 for the host, and a `wl_shm`, 6 and 3.
abbrev pub table : ShadowTable Pairing Face
table = map_ids faces pairing (map_ids faces pairing (Table.new faces pairing) 5 2 surface) 6 3 shm

abbrev pub session : ShadowTable Pairing Face → Bytes → List ℕ → Session Pairing Face
session objects buf fds = record {
  src = record { read_buf = buf; read_fds = fds; sent = []; answers = [] };
  dst = some (record { read_buf = []; read_fds = []; sent = []; answers = [] });
  objects = objects;
  graph = Graph.new;
  grabs = Grabs.new;
  buffer_flow = BufferFlow.new;
  pending_frames = PendingFrames.new;
  pending_dmabuf_planes = [];
  clipboard_cache = [];
  reclaim = record {
    pending = false;
    data_device_manager_global = none;
    active_source_host_id = none;
  };
  tees = [];
  serves = [];
}

-- `frame` on the surface, for the callback 9.
abbrev pub frame_msg : Bytes
frame_msg = build_message little 5 0 (to_ne_bytes little 9)

abbrev pub frame_in : Incoming Face
frame_in = record {
  direction = client_to_host;
  guest_sender_id = 5;
  interface = surface;
  desc = frame_desc;
  header = record { sender_id = 5; opcode = 0; length = 12 };
  walk = record {
    new_id_offset = some 0;
    object_offsets = [];
    fd_count = 0;
    dynamic_interface_name = none;
  };
  objects = [];
}

-- `create_pool` on the `wl_shm`, for the pool 10, with a descriptor.
abbrev pub pool_msg : Bytes
pool_msg = build_message little 6 0 (to_ne_bytes little 10 ++ to_ne_bytes little 4096)

abbrev pub pool_in : Incoming Face
pool_in = record {
  direction = client_to_host;
  guest_sender_id = 6;
  interface = shm;
  desc = pool_desc;
  header = record { sender_id = 6; opcode = 0; length = 16 };
  walk = record {
    new_id_offset = some 0;
    object_offsets = [];
    fd_count = 1;
    dynamic_interface_name = none;
  };
  objects = [];
}

-- After a reconnect that recreated nothing.
abbrev pub stale : ShadowTable Pairing Face
stale = bump_generation faces pairing table
