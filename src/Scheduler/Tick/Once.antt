-- ===== src/Scheduler/Tick/Once.antt =====
-- backend/scheduler/main.py: what is due for a job after it was scheduled.
use distributed_asynchronous.Prelude.{
  ◌≡◌, refl, Option, none, some, [], arith, ◌==◌, Result, ok, err,
}
use distributed_asynchronous.Table.{by_key-update_where}
use distributed_asynchronous.Models.{Time, Job, Database, job_by_id, add_run}
use distributed_asynchronous.Scheduler.Cron.{Croniter, Stop}
use distributed_asynchronous.Scheduler.Cron.Once.{due_tick-once}
use distributed_asynchronous.Scheduler.Tick.Progress.{OnCommit}
use distributed_asynchronous.Scheduler.Tick.{
  set_last_scheduled, base_time, create_tick, job_due, schedule_job,
}

-- The job with its last tick.
abbrev pub anchored : Time → Time → Job → Job
anchored t now job = record job { last_scheduled_for = some t; updated_at = now }

job_by_id-create_tick :
    (now : Time) (job : Job) (t : Time) (db : Database)
    → job_by_id job.id db ≡ some job
    → job_by_id job.id (create_tick now job t db).1 ≡ some (anchored t now job)
unfolding job_by_id create_tick set_last_scheduled add_run
job_by_id-create_tick now job t db found = ground (
  arith,
  by_key-update_where (λ (j : Job). j.id) (λ j. j.id == job.id) (anchored t now) job.id db.jobs
      (λ j. refl),
)

module _ (get_next : Croniter) (now : Time) where
  -- Nothing is due for the job, and scheduling it changes nothing.
  abbrev pub IsDone : Job → Database → Type 0
  IsDone job db =
      (job_by_id job.id db ≡ some job)
      × (job_due get_next job now ≡ ok none)
      × (schedule_job get_next now job db ≡ ok ([], db))

  done :
      (job : Job) (db : Database)
      → job_by_id job.id db ≡ some job
      → job_due get_next job now ≡ ok none
      → IsDone job db
  unfolding schedule_job
  done job db found h = (found, h, rw (h, schedule_job) refl)

  pub due_once :
      (job : Job) (t : Time)
      → job_due get_next job now ≡ ok (some t)
      → job_due get_next (anchored t now job) now ≡ ok none
  unfolding job_due
  due_once job t h =
      due_tick-once get_next job.schedule_type job.schedule_expr job.timezone now (base_time job) t
        h

  -- In the database that commits after a job of the table was scheduled, whether or not a run of
  -- its tick was there already, the job is still in the table; at the same time nothing more is due
  -- for it, and scheduling it again changes nothing.
  pub schedule_job-once :
      (job : Job) (db : Database)
      → job_by_id job.id db ≡ some job
      → OnCommit
          (λ later. (job' : Job) × (job'.id ≡ job.id) × IsDone job' later)
          (schedule_job get_next now job db)
  unfolding schedule_job
  schedule_job-once job db found = go (job_due get_next job now) refl
    where
      go :
          (r : Result Stop (Option Time))
          → job_due get_next job now ≡ r
          → OnCommit
              (λ later. (job' : Job) × (job'.id ≡ job.id) × IsDone job' later)
              (schedule_job get_next now job db)
      go (err x) e = rw (e, schedule_job) tt
      go (ok none) e = rw (e, schedule_job) (job, refl, done job db found e)
      go (ok (some t)) e =
          rw (e, schedule_job)
            (
              anchored t now job,
              refl,
              done (anchored t now job) (create_tick now job t db).1
                  (job_by_id-create_tick now job t db found) (due_once job t e),
            )
