-- ===== src/Store.antt =====
-- backend/worker/store.py: the worker's database operations. Each is one transaction, a function
-- from the database to its result and the database that it commits; `now` is its reading of the
-- clock.
pub mod Defs
pub mod Claim
pub mod Finish
pub mod Progress
