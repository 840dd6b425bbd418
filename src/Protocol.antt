-- ===== src/Protocol.antt =====
-- src/protocol.rs: the packet format and the connection object over the C library.
pub mod Packet
pub mod Payload
pub mod Conv
pub mod Kcp
