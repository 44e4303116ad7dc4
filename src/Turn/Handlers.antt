-- ===== src/Turn/Handlers.antt =====
-- The handlers of the detectors' signals (TurnManager::handle_signal of
-- crates/speech-core-daemon/src/detectors/turn.rs), each on the session of its signal.
pub mod Shared
pub mod Segment
pub mod Hold
pub mod Silence
pub mod Token
pub mod Model
