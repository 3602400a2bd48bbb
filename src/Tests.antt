-- ===== src/Tests.antt =====
-- The theorems of the library at concrete inputs.
mod Fixtures
pub mod Wire
pub mod Shadow
pub mod Trackers
pub mod Recreation
pub mod Relay
pub mod Clipboard
pub mod DesktopApps
pub mod Connection
pub mod Recovery
