-- ===== src/System/Runs.antt =====
-- The runs along a history: they only progress.
use distributed_asynchronous.Prelude.{
  ℕ, refl, Bool, true, false, not, Option, none, some, List, [], ◌∷◌, Result, ok, err, ◌==◌, String,
  if◌then◌else◌,
}
use distributed_asynchronous.Models.Json.{Fields}
use distributed_asynchronous.Models.{Time, Job, JobRun, Database}
use distributed_asynchronous.Constants.{queued, dependency}
use distributed_asynchronous.Models.Progress.{
  IsValid, add_untimed-Progress, Progress, Progress-refl, Progress-trans, Progress-of_same,
  Progress-of_select,
}
use distributed_asynchronous.Store.Progress.{
  claim_run-Progress, append_logs-Progress, cancel_run-Progress, finish_run-Progress,
  create_retry_run-Progress, promote-Progress,
}
use distributed_asynchronous.Runner.Progress.{exec_result-rank}
use distributed_asynchronous.Scheduler.Cron.{Stop}
use distributed_asynchronous.Scheduler.Tick.Progress.{OnCommit, schedule_due_jobs-Progress}
use distributed_asynchronous.Api.Http.{HttpError}
use distributed_asynchronous.Api.Trigger.{Reply}
use distributed_asynchronous.Api.Trigger.Answer.{Answers, trigger_job-Answers}
use distributed_asynchronous.Api.Runs.Changes.{Retries, retry_run-Retries}
use distributed_asynchronous.Api.Jobs as Crud
use distributed_asynchronous.Api.Jobs.Handlers as Handlers
use distributed_asynchronous.Api.Jobs.Update.{store_job}
use distributed_asynchronous.Api.Auth as Auth
use distributed_asynchronous.System.{
  Environment, Transaction, register, create_job, update_job, delete_job, trigger_job, retry_run,
  cancel_run, schedule_due_jobs, claim_run, append_logs, finish_run, create_retry_run,
  promote_pending, insert_dependency_run, committed, transact, replay, FindsPending, Undisturbed,
}
use distributed_asynchronous.System.Writes.{
  register-writes, create_job-writes, put_job-writes, delete_job-writes,
}

delete_rows-Progress :
    (job_id : ℕ) (db : Database) → IsValid db → Progress db (Handlers.delete_rows job_id db)
unfolding Handlers.delete_rows
delete_rows-Progress job_id db v =
    Progress-of_select db _ (λ r. not (r.job_id == job_id)) refl refl v

store_job-Progress :
    (cron_is_valid : String → Bool) (differs : Fields → Fields → Bool) (job new : Job)
    (ids : Option (List ℕ)) (db : Database)
    → Progress db (store_job cron_is_valid differs job new ids db)
unfolding store_job Crud.set_dependencies
store_job-Progress cron_is_valid differs job new none db = Progress-of_same db _ refl refl
store_job-Progress cron_is_valid differs job new (some ids) db = Progress-of_same db _ refl refl

create_job-Progress :
    (job : Job) (ids : List ℕ) (db : Database)
    → Progress db (Crud.set_dependencies db.next_job_id ids (Crud.add_job job db))
unfolding Crud.set_dependencies
create_job-Progress job ids db = Progress-of_same db _ refl refl

answered-Progress :
    (job_id user_id : ℕ) (db : Database) (r : Result HttpError JobRun) (reply : Reply JobRun)
    → Answers job_id user_id db r reply
    → Progress db reply.db
answered-Progress job_id user_id db (ok run) reply h = h.progress
answered-Progress job_id user_id db (err e) reply h = rw h.rolled_back (Progress-refl db)

retried-Progress :
    (run_id user_id : ℕ) (db : Database) (r : Result HttpError JobRun) (reply : Reply JobRun)
    → Retries run_id user_id db r reply
    → Progress db reply.db
retried-Progress run_id user_id db (ok run) reply h = h.progress
retried-Progress run_id user_id db (err e) reply h = rw h.0 (Progress-refl db)

committed-Progress :
    (db : Database) (r : Result Stop (List ℕ × Database))
    → OnCommit (Progress db) r
    → Progress db (committed r db)
committed-Progress db (ok (ids, later)) p = p
committed-Progress db (err e) p = Progress-refl db

if-Progress :
    (db later : Database) (b : Bool) → Progress db later → Progress db (if b then later else db)
if-Progress db later true p = p
if-Progress db later false p = Progress-refl db

module _ (env : Environment) where
  open env use {get_next, cron_is_valid, differs, crypto, settings, describe_error}

  pub transact-Progress :
      (t : Transaction) (now : Time) (db : Database)
      → IsValid db
      → FindsPending env t db
      → Progress db (transact env t now db)
  unfolding transact
  transact-Progress (register payload salt) now db v waits = if-Progress db _ _ (
      register-writes (Progress db) now db (Progress-refl db) crypto settings payload salt (λ free.
        Progress-of_same db _ (unfold Auth.add_user in refl) (unfold Auth.add_user in refl)))
  transact-Progress (create_job payload user_id) now db v waits = if-Progress db _ _ (
      create_job-writes (Progress db) now db (Progress-refl db) describe_error payload user_id
        (λ known. create_job-Progress (Crud.new_job payload user_id now db) payload.depends_on db))
  transact-Progress (update_job job_id payload user_id) now db v waits = if-Progress db _ _ (
      put_job-writes (Progress db) now db (Progress-refl db) cron_is_valid differs describe_error
        job_id payload user_id
        (λ job p found f m valid. store_job-Progress cron_is_valid differs _ _ _ db))
  transact-Progress (delete_job job_id user_id) now db v waits =
      delete_job-writes (Progress db) now db (Progress-refl db) job_id user_id
        (λ job found. delete_rows-Progress job.id db v)
  transact-Progress (trigger_job job_id user_id) now db v waits =
      answered-Progress job_id user_id db _ _ (trigger_job-Answers job_id user_id now db v)
  transact-Progress (retry_run run_id user_id) now db v waits =
      retried-Progress run_id user_id db _ _ (retry_run-Retries run_id user_id now db v)
  transact-Progress (cancel_run run_id) now db v waits = cancel_run-Progress db run_id now
  transact-Progress schedule_due_jobs now db v waits =
      committed-Progress db _ (schedule_due_jobs-Progress get_next now db v)
  transact-Progress (claim_run run_id worker_id allow_running) now db v waits =
      claim_run-Progress db run_id worker_id allow_running now
  transact-Progress (append_logs run_id entries) now db v waits =
      append_logs-Progress db run_id entries now
  transact-Progress (finish_run run_id ending error) now db v waits =
      finish_run-Progress db run_id _ _ _ error now (exec_result-rank ending)
  transact-Progress (create_retry_run job_id attempt) now db v waits =
      create_retry_run-Progress db job_id attempt now
  transact-Progress (promote_pending run_id) now db v waits = promote-Progress db run_id waits
  transact-Progress (insert_dependency_run job_id) now db v waits =
      add_untimed-Progress job_id dependency queued 1 now db

  -- From a database with valid run ids, whatever transactions the processes commit and in whatever
  -- order, where each promotion of a pending run by create_dependency_run finds the run still
  -- pending: run ids stay valid, no two runs come to stand for one tick of a job, no run goes back to
  -- an earlier stage or comes back after its deletion, a canceled run stays canceled, and the
  -- columns that say which run it is are never written.
  pub replay-Progress :
      (h : List (Transaction × Time)) (db : Database)
      → IsValid db
      → Undisturbed env h db
      → Progress db (replay env h db)
  replay-Progress [] db v u = Progress-refl db
  replay-Progress ((t, now) ∷ rest) db v u =
      let p = transact-Progress t now db v u.0 in
      Progress-trans v p (replay-Progress rest (transact env t now db) (p.valid v) u.1)
