-- ===== src/Stream.antt =====
-- src/stream.rs: the stream over a connection, and the task that drives it.
pub mod Handshake
pub mod Flags
pub mod Task
pub mod Run
pub mod Order
pub mod Delivery
pub mod Number
pub mod Closing
pub mod FinPacket
pub mod Sent
pub mod Runs
pub mod Hostile
pub mod Agreed
pub mod Syn
