-- ===== src/Example.antt =====
-- A small concrete engine and states, on which the theorems are applied: the witnesses and tests.
pub mod Engine
pub mod Packets
pub mod Queued
pub mod Endings
pub mod Maps
pub mod Pipes
pub mod Pool
pub mod Nets
pub mod Counted
pub mod Delivery
pub mod Greeted
pub mod Sessions
