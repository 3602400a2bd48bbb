-- ===== src/Recovery.antt =====
-- src/lib.rs: `recover_state_after_reconnect`, which builds a client's objects anew on a new
-- compositor.
pub mod State
pub mod Registry
pub mod Recreate
pub mod Dmabuf
pub mod Toplevel
pub mod Replay
pub mod Answers
pub mod Owed
pub mod Recover
pub mod Fuel
pub mod Returns
pub mod Unfailing
pub mod Stays
pub mod Growth
pub mod Keeps
pub mod Made
pub mod Alive
pub mod Liveness
pub mod Client
pub mod Descriptors
