-- ===== src/Daemon.antt =====
-- The sessions of audio streams in the daemon (DaemonState of
-- crates/speech-core-daemon/src/main.rs).
pub mod Streams
pub mod Ingest
pub mod Sessions
pub mod Continuity
pub mod Owners
