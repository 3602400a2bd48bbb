-- ===== src/Trackers.antt =====
-- The trackers that a reconnect reads: unanswered callbacks, buffers in flight, grabs.
pub mod PendingFrames
pub mod BufferFlow
pub mod Grabs
pub mod GrabHistory
pub mod GrabLaws
