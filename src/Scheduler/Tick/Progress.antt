-- ===== src/Scheduler/Tick/Progress.antt =====
-- The scheduler's transaction of backend/scheduler/main.py as a change of the runs.
use distributed_asynchronous.Prelude.{
  ℕ, ◌≡◌, refl, false, Option, none, some, List, [], ◌∷◌, inl, inr, Bool-cases, Result, ok, err,
  ◌>>=◌,
}
use distributed_asynchronous.Constants.{queued, scheduled}
use distributed_asynchronous.Models.{Time, Job, JobRun, Database, new_run, add_run}
use distributed_asynchronous.Models.Ticks.{clashes-free}
use distributed_asynchronous.Models.Progress.{
  IsValid, Progress, Progress-refl, Progress-trans, Progress-of_same, add_run-Progress,
}
use distributed_asynchronous.Scheduler.Cron.{Croniter, Stop}
use distributed_asynchronous.Scheduler.Tick.{
  tick_taken, set_last_scheduled, create_tick, job_due, schedule_job, schedule_jobs,
  schedule_due_jobs, tick, is_scheduled,
}
use distributed_asynchronous.Table.{select}

set_last_scheduled-Progress :
    (job_id : ℕ) (t now : Time) (db : Database) → Progress db (set_last_scheduled job_id t now db)
unfolding set_last_scheduled
set_last_scheduled-Progress job_id t now db = Progress-of_same db _ refl refl

pub create_tick-Progress :
    (now : Time) (job : Job) (t : Time) (db : Database)
    → IsValid db
    → Progress db (create_tick now job t db).1
unfolding create_tick new_run
create_tick-Progress now job t db v = elim (Bool-cases (tick_taken job.id t db)) [
  | inl taken ↦ rw taken (set_last_scheduled-Progress job.id t now db)
  | inr free ↦ rw free (Progress-trans v (added free) (set_last_scheduled-Progress job.id t now _))
]
  where
    run : JobRun
    run = new_run job.id scheduled queued 1 (some t) now db

    added : tick_taken job.id t db ≡ false → Progress db (add_run run db)
    added free =
        add_run-Progress job.id scheduled queued 1 (some t) now db
          (clashes-free db.runs run t refl free)

-- A statement about the database that a transaction commits; one that raises is rolled back.
abbrev pub OnCommit : (Database → Type 0) → Result Stop (List ℕ × Database) → Type 0
OnCommit P (ok (ids, db)) = P db
OnCommit P (err e) = Unit

module _ (get_next : Croniter) (now : Time) where
  schedule_job-Progress :
      (job : Job) (db : Database)
      → IsValid db
      → OnCommit (Progress db) (schedule_job get_next now job db)
  unfolding schedule_job
  schedule_job-Progress job db v = go (job_due get_next job now) refl
    where
      go :
          (r : Result Stop (Option Time))
          → job_due get_next job now ≡ r
          → OnCommit (Progress db) (schedule_job get_next now job db)
      go (err x) d = rw (d, schedule_job) tt
      go (ok none) d = rw (d, schedule_job) (Progress-refl db)
      go (ok (some t)) d = rw (d, schedule_job) (create_tick-Progress now job t db v)

  OnCommit-bind :
      (db : Database) (m : Result Stop (List ℕ × Database))
      (f : List ℕ × Database → Result Stop (List ℕ × Database))
      → IsValid db
      → OnCommit (Progress db) m
      → ((ids : List ℕ) (d : Database) → IsValid d → OnCommit (Progress d) (f (ids, d)))
      → OnCommit (Progress db) (m >>= f)
  OnCommit-bind db (err e) f v p k = tt
  OnCommit-bind db (ok (ids, d)) f v p k = OnCommit-trans (f (ids, d)) (k ids d (p.valid v))
    where
      OnCommit-trans :
          (r : Result Stop (List ℕ × Database)) → OnCommit (Progress d) r → OnCommit (Progress db) r
      OnCommit-trans (err e) q = tt
      OnCommit-trans (ok (more, d')) q = Progress-trans v p q

  schedule_jobs-Progress :
      (jobs : List Job) (db : Database)
      → IsValid db
      → OnCommit (Progress db) (schedule_jobs get_next now jobs db)
  unfolding schedule_jobs
  schedule_jobs-Progress [] db v = Progress-refl db
  schedule_jobs-Progress (job ∷ jobs) db v =
      OnCommit-bind db (schedule_job get_next now job db) _ v (schedule_job-Progress job db v)
        λ ids d w.
          OnCommit-bind d (schedule_jobs get_next now jobs d) _ w (schedule_jobs-Progress jobs d w)
            λ more d' w'. Progress-refl d'

  pub schedule_due_jobs-Progress :
      (db : Database) → IsValid db → OnCommit (Progress db) (schedule_due_jobs get_next now db)
  unfolding schedule_due_jobs
  schedule_due_jobs-Progress db v = schedule_jobs-Progress (select is_scheduled db.jobs) db v

  -- From a database with valid run ids a tick of the scheduler lets the runs progress, also when it
  -- raises; so no run goes back, and no tick of a job gets a second run.
  pub tick-Progress :
      (after : ℕ) (due : List ℕ) (db : Database)
      → IsValid db
      → Progress db (tick get_next after now due db).db
  unfolding tick
  tick-Progress after due db v =
      go (schedule_due_jobs get_next now db) refl (schedule_due_jobs-Progress db v)
    where
      go :
          (r : Result Stop (List ℕ × Database))
          → schedule_due_jobs get_next now db ≡ r
          → OnCommit (Progress db) r
          → Progress db (tick get_next after now due db).db
      go (err x) e p = rw (e, tick) (Progress-refl db)
      go (ok (ids, d)) e p = rw (e, tick) p
