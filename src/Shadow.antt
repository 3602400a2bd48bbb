-- ===== src/Shadow.antt =====
-- src/shadow_table.rs.
pub mod BiMap
pub mod Table
pub mod Translate
pub mod Generations
pub mod Allocators
