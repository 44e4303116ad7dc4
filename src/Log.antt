-- ===== src/Log.antt =====
-- The event log of the daemon (crates/speech-core-daemon/src/jsonl_logger.rs).
pub mod Files
pub mod Writer
pub mod Kept
pub mod Turned
pub mod Grown
pub mod Steps
pub mod Order
pub mod Size
pub mod Bounded
pub mod Written
pub mod Limits
