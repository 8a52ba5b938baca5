-- ===== src/Protocol.antt =====
-- src/protocol/mod.rs: packets on a stream.
pub mod Streams
pub mod Read
pub mod Write
pub mod RoundTrip
pub mod Ping
