-- ===== src/Worker.antt =====
-- The detector worker (crates/speech-core-daemon/src/detectors/mod.rs), which feeds the detectors
-- and brings their signals to the turn manager, and its actions back to them.
pub mod Interfaces
pub mod State
pub mod Events
pub mod Signals
pub mod Commands
pub mod Leaves
pub mod Rechecks
pub mod Due
pub mod Scheduled
pub mod Forced
pub mod Decode
pub mod Queue
pub mod Histories
pub mod Fifo
pub mod Order
pub mod Thread
pub mod Stopped
