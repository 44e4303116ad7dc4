-- ===== src/Smart.antt =====
-- The semantic turn detector of the daemon
-- (crates/speech-core-daemon/src/detectors/smart_turn.rs).
pub mod Session
pub mod Detector
pub mod Samples
pub mod Joined
pub mod Timeline
pub mod Segment
pub mod Predicted
