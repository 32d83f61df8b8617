-- ===== src/Scheduler/Tick/Orphans.antt =====
-- Which runs `requeue_orphans` of backend/scheduler/main.py puts back on the stream.
use distributed_asynchronous.Prelude.{ℕ, ◌+◌, ◌≡◌, false, ◌&&◌, none, some, contains, ltb}
use distributed_asynchronous.Table.{contains-select}
use distributed_asynchronous.Constants.{queued, status_eq}
use distributed_asynchronous.Models.{Time, JobRun, Database, seconds, run_by_id}
use distributed_asynchronous.Models.Progress.{IsValid}
use distributed_asynchronous.Scheduler.Tick.{requeue_orphans}

-- In a database with valid run ids: a run is put back exactly when it is queued and was created
-- more than the threshold ago.
pub requeue_orphans_lem :
    (after : ℕ) (now : Time) (db : Database) (i : ℕ)
    → IsValid db
    → contains (requeue_orphans after now db) i ≡ (elim (run_by_id i db) [
      | none ↦ false
      | some r ↦ status_eq r.status queued && ltb (r.created_at + seconds after) now
    ])
unfolding requeue_orphans run_by_id
requeue_orphans_lem after now db i v =
    contains-select (λ (r : JobRun). r.id) 0 db.runs db.next_run_id i _ v
