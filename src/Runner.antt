-- ===== src/Runner.antt =====
-- backend/worker/runner.py: the worker's work on one run.
pub mod Defs
pub mod Progress
pub mod Process
pub mod Logs
pub mod Batches
pub mod Failure
