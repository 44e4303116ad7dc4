-- ===== src/Vad.antt =====
-- The voice activity detector (crates/speech-core-daemon/src/detectors/vad.rs).
pub mod Config
pub mod Events
pub mod Local
pub mod Levels
pub mod Frame
pub mod Changes
pub mod Detector
pub mod Machine
pub mod Yields
pub mod Tracked
pub mod Moves
pub mod Refines
pub mod Marks
pub mod Rest
pub mod Follow
pub mod Window
pub mod Windows
pub mod History
pub mod Reset
pub mod Reach
pub mod Held
