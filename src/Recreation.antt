-- ===== src/Recreation.antt =====
-- src/recreation.rs: the recipes that a reconnect replays. `I` is the type of interfaces; a
-- descriptor is a number that names the open file, an `i32` its bit pattern, a text its bytes.
pub mod Graph
pub mod Laws
pub mod Order
