-- ===== src/Progress.antt =====
-- The model's progress as the turn manager sees it (ModelProgressMap of
-- crates/speech-core-daemon/src/model.rs), a module for each aspect.
pub mod State
pub mod Ops
pub mod PerTurn
pub mod Selection
pub mod Recording
pub mod Freeze
pub mod Generations
