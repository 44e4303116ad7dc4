-- ===== src/Examples.antt =====
-- Concrete sessions for the turn manager, and runs of it on them.
mod Data
mod Turns
mod Parts
mod Vads
mod Workers
mod Daemons
mod Predictions
mod Queues
mod Logs
mod Runs
