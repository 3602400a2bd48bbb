-- ===== src/Connection.antt =====
-- src/lib.rs: `Conn` down to the single system calls, and the loop of `run_connection`.
pub mod Send
pub mod Line
pub mod Stream
pub mod Room
pub mod Open
pub mod Loop
pub mod Frozen
pub mod Served
pub mod Lasting
pub mod Thaw
