-- ===== src/Wire.antt =====
-- src/wire.rs: the framing of the Wayland wire protocol, its arguments, and the walk over a
-- message's signature of src/lib.rs.
pub mod Words
pub mod Header
pub mod Text
pub mod Encode
pub mod Walk
pub mod Describe
pub mod WalkFields
pub mod WalkEncode
pub mod WalkBounds
pub mod Hex
