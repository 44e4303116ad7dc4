-- ===== src/Turn.antt =====
-- The turn manager of crates/speech-core-daemon/src/detectors/turn.rs, a module for each aspect.
pub mod Config
pub mod Signals
pub mod Events
pub mod Local
pub mod Align
pub mod Close
pub mod Handlers
pub mod Manager
pub mod Post
pub mod Invariant
pub mod History
pub mod Sessions
pub mod Live
pub mod Finalize
pub mod AfterClose
pub mod Times
pub mod Gap
pub mod Gate
pub mod Short
pub mod Held
pub mod Quiet
pub mod Accepted
pub mod Answers
pub mod Forced
