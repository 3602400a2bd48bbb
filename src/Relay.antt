-- ===== src/Relay.antt =====
-- src/lib.rs: the relay of messages between the client and the compositor.
pub mod Session
pub mod Synthesize
pub mod Releases
pub mod Splice
pub mod Capture
pub mod NewId
pub mod Observe
pub mod Forward
pub mod Process
pub mod Queue
pub mod Delivery
pub mod Descriptors
pub mod AnyMessage
pub mod Drain
pub mod Gapless
pub mod Orphans
pub mod Addressing
