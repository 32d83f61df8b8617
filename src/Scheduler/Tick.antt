-- ===== src/Scheduler/Tick.antt =====
-- backend/scheduler/main.py: what the leader does on each tick. `now` is the clock's reading.
pub mod Progress
pub mod Orphans
pub mod Once
pub mod Settle
pub mod Again
use distributed_asynchronous.Prelude.{
  ℕ, ◌+◌, Bool, true, false, ◌&&◌, Option, none, some, List, [], ◌∷◌, ◌++◌, map, ltb, ◌==◌,
  if◌then◌else◌, is_some, Result, ok, err, ◌>>=◌,
}
use distributed_asynchronous.Table.{select, first, update_where}
use distributed_asynchronous.Constants.{queued, scheduled, status_eq, word_in}
use distributed_asynchronous.Constants.ScheduleType
use distributed_asynchronous.Models.Ticks.{is_tick}
use distributed_asynchronous.Models.{Time, seconds, Job, Database, new_run, add_run}
use distributed_asynchronous.Queue.{Command, enqueue_run, promote_script}
use distributed_asynchronous.Scheduler.Cron.{Croniter, Stop, due_tick}

-- Whether an insertion would break the constraint uq_job_run_tick.
unfoldable pub tick_taken : ℕ → Time → Database → Bool
tick_taken job_id tick db =
    is_some (first (λ run. run.job_id == job_id && is_tick run.scheduled_for tick) db.runs)

-- job.last_scheduled_for = tick; the column `updated_at` follows every update.
unfoldable pub set_last_scheduled : ℕ → Time → Time → Database → Database
set_last_scheduled job_id tick now db = record db {
  jobs =
      update_where (λ job. job.id == job_id)
        (λ job. record job { last_scheduled_for = some tick; updated_at = now }) db.jobs;
}

abbrev pub base_time : Job → Time
base_time job = elim job.last_scheduled_for [ none ↦ job.created_at | some t ↦ t ]

-- The body of the loop after `due_tick`: the ids appended to `enqueued`, and the database.
unfoldable pub create_tick : Time → Job → Time → Database → List ℕ × Database
unfolding tick_taken set_last_scheduled
create_tick now job tick db =
    let run = new_run job.id scheduled queued 1 (some tick) now db in
    if tick_taken job.id tick db
    then ([], set_last_scheduled job.id tick now db)
    else (run.id ∷ [], set_last_scheduled job.id tick now (add_run run db))

unfoldable pub is_scheduled : Job → Bool
is_scheduled job =
    job.enabled && word_in (ScheduleType.cron ∷ ScheduleType.interval ∷ []) job.schedule_type

-- Runs created before `now - orphan_requeue_after_sec`.
unfoldable pub requeue_orphans : (orphan_requeue_after_sec : ℕ) → Time → Database → List ℕ
requeue_orphans after now db =
    map (λ run. run.id)
      (select (λ run. status_eq run.status queued && ltb (run.created_at + seconds after) now)
        db.runs)

unfoldable pub enqueue_all : List ℕ → List Command
enqueue_all [] = []
enqueue_all (run_id ∷ ids) = enqueue_run run_id ++ enqueue_all ids

-- What a tick raises, if anything, the Redis commands that it has sent, and the database.
pub record Outcome : Type 0 where
  pub raised : Option Stop
  pub commands : List Command
  pub db : Database

module _ (get_next : Croniter) where
  unfoldable pub job_due : Job → Time → Result Stop (Option Time)
  job_due job now =
      due_tick get_next job.schedule_type job.schedule_expr job.timezone (base_time job) now

  unfoldable pub schedule_job : Time → Job → Database → Result Stop (List ℕ × Database)
  unfolding job_due
  schedule_job now job db = elim (job_due job now) [
    | err e ↦ err e
    | ok none ↦ ok ([], db)
    | ok (some tick) ↦ ok (create_tick now job tick db)
  ]

  unfoldable pub schedule_jobs : Time → List Job → Database → Result Stop (List ℕ × Database)
  schedule_jobs now [] db = ok ([], db)
  schedule_jobs now (job ∷ jobs) db = do
    (ids, db') ← schedule_job now job db
    (more, db'') ← schedule_jobs now jobs db'
    ok (ids ++ more, db'')

  unfoldable pub schedule_due_jobs : Time → Database → Result Stop (List ℕ × Database)
  unfolding schedule_jobs
  schedule_due_jobs now db = schedule_jobs now (select is_scheduled db.jobs) db

  -- `due` is the reply of ZRANGEBYSCORE in the promotion script.
  unfoldable pub tick : ℕ → Time → List ℕ → Database → Outcome
  unfolding schedule_due_jobs
  tick orphan_requeue_after_sec now due db = elim (schedule_due_jobs now db) [
    | err e ↦ record { raised = some e; commands = promote_script due; db = db }
    | ok (ids, db') ↦ record {
      raised = none;
      commands =
          promote_script due
          ++ (enqueue_all ids ++ enqueue_all (requeue_orphans orphan_requeue_after_sec now db'));
      db = db';
    }
  ]
