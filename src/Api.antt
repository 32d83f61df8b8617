-- ===== src/Api.antt =====
-- backend/api: the requests that create, cancel and show runs.
pub mod Health
pub mod Http
pub mod Trigger
pub mod Runs
pub mod Jobs
pub mod Users
pub mod Auth
