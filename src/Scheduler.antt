-- ===== src/Scheduler.antt =====
-- backend/scheduler: schedules, leader election, the scheduler's tick, and its main loop.
pub mod Cron
pub mod Leader
pub mod Tick
pub mod Main
