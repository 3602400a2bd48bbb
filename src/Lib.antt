-- ===== src/Lib.antt =====
-- wl-resprox is a Wayland proxy that keeps clients alive when the compositor dies. Clients talk to
-- the proxy; the proxy relays every message to the compositor and back, with the object ids of one
-- side rewritten to those of the other, and keeps what it needs to build a client's objects anew
-- on the next compositor.
--
-- The parts and the files that model them:
--
--   Wire        src/wire.rs, and `walk_signature` of src/lib.rs. Bytes are numbers below 256. Words
--               are in the byte order of the machine, which is a parameter (`Endian`): Wire/Words.
--               Headers and messages: Wire/Header. Strings and arrays, with UTF-8 checked by an
--               automaton: Wire/Text. The argument encoder: Wire/Encode. The walk over a payload
--               along its signature: Wire/Walk; Wire/WalkEncode sets it against the encoder,
--               through Wire/Describe, and Wire/WalkBounds against any payload.
--   Protocol    what is used of the protocol library's descriptions; these are generated, so they
--               are a parameter.
--   Interfaces  src/interfaces.rs and `resolve_child_interface` of src/lib.rs.
--   Shadow      src/shadow_table.rs. Shadow/BiMap is the interface of the bimap crate, with its
--               documented laws; Shadow/Table has the operations. A Rust `map` is `map_ids` here.
--   Trackers    src/pending_frames.rs, src/buffer_flow.rs and src/grab_state.rs, each with a
--               specification that reads the list of the calls so far.
--   Recreation  src/recreation.rs: the recipes, and the order that replay relies on. A Rust `record`
--               is `record_recipe` here.
--   Relay       `relay_ready_messages` of src/lib.rs and what it calls. Relay/Session has the state
--               that it is handed, and the World: the tables and the answers of the system. The
--               body of the loop is `relay_message` of Relay/Process, whose steps stand in the order
--               of the source in Relay/NewId (object arguments, new objects), Relay/Capture (what
--               is recorded for replay), Relay/Observe (what is learnt from a message) and
--               Relay/Forward (the sender, the descriptors, the write). Relay/Synthesize has the
--               events that the proxy makes up, Relay/Splice the cached clipboard. The other files
--               hold proofs.
--   Connection  a connection down to its system calls: Connection/Send has the loop of
--               `Conn::write_message`, Connection/Line `Conn::fill` and `next_message`, over what the
--               calls give. Connection/Loop has `run_connection`: which branch of its `select!` is
--               taken is an event, and `turn` is one round. The other files hold proofs.
--   Recovery    `recover_state_after_reconnect` of src/lib.rs. Recovery/State has what it is handed.
--               It runs in the order of the source: Recovery/Registry (the globals), Recovery/Replay
--               (the loop over the recipes), with one function for each kind of recipe in
--               Recovery/Recreate, Recovery/Dmabuf and Recovery/Toplevel, then Recovery/Answers
--               (what the client is still owed); Recovery/Recover puts them together. A `continue`
--               is `skipped`, a failed `expect` is `panicked`. The other files hold proofs.
--   Clipboard   the loop of `pump` in src/clipboard.rs, over what its reads and writes give.
--   DesktopApps src/desktop_apps.rs: `main_entry_exec`, `exec_binary_name` and `build_from_dirs`. A text
--               is a list of code points, the standard library's functions on texts and paths are
--               written out, and what the directories hold is an argument.
--   Tests       the theorems at concrete inputs.
--
-- Bounds and fuel: a `u32` or `u64` counter wraps, as in a release build; an `i32` that is only cast
-- is its bit pattern. The relay loop runs on fuel; one more than the number of buffered bytes is
-- enough, as every message takes at least eight. So do the waits of the recovery, with one more than
-- the bytes buffered and to come, and the arrivals.
--
-- Relay and Recovery take a write to a connection for one step that succeeds or fails as a list of
-- answers says; Connection/Send has its parts. What arrives on a connection during a recovery is a
-- list, in which a time without an arrival is an entry, `quiet`, that ends a wait with a deadline.
-- The system calls, the recorder and the log are not modelled. Descriptors are
-- numbers. A spawned copy of a clipboard transfer is an entry of `tees`, a spawned write of cached
-- content an entry of `serves`. Not modelled: the pipes of `start_tee` in src/clipboard.rs, and the
-- directory list of `build` and the link under /proc in src/desktop_apps.rs. src/main.rs, src/cli.rs,
-- src/notify.rs, src/fdsocket.rs, src/recorder.rs and src/bin/socket-handoff.rs are input and output.
pub mod Prelude
pub mod Wire
pub mod Protocol
pub mod Shadow
pub mod Trackers
pub mod Recreation
pub mod Interfaces
pub mod Relay
pub mod Clipboard
pub mod DesktopApps
pub mod Connection
pub mod Recovery
pub mod Tests
