-- ===== src/Protocol.antt =====
-- The messages of crates/speech-core-protocol/src/lib.rs.
pub mod Types
pub mod Codec
pub mod RoundTrip
pub mod Latency
