-- ===== src/DesktopApps.antt =====
-- src/desktop_apps.rs: the index of installed applications. A text is the list of its characters, by
-- their code points.
pub mod Exec
pub mod Groups
pub mod Index
pub mod Scan
