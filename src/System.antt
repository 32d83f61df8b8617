-- ===== src/System.antt =====
-- The processes of the scheduler as one system. Each of them works on the database by transactions:
-- the requests of backend/api, the leader of backend/scheduler/main.py and the workers, whose
-- transactions are the functions of backend/worker/store.py. A history is the order in which the
-- transactions of all processes commit.
pub mod Writes
pub mod Runs
pub mod Claims
pub mod Executions
pub mod Recovery
use distributed_asynchronous.Prelude.{
  ℕ, ◌+◌, ◌≡◌, String, Bool, true, false, Option, none, some, List, [], ◌∷◌, ◌==◌, if◌then◌else◌,
  is_some, Result, ok, err,
}
use distributed_asynchronous.Constants.{pending, queued, dependency}
use distributed_asynchronous.Models.{Time, Job, JobRun, Database, run_by_id, new_run, add_run}
use distributed_asynchronous.Store.Defs as Store
use distributed_asynchronous.Executors.{Ending, ExecResult, exec_result}
use distributed_asynchronous.Scheduler.Cron.{Croniter, Stop}
use distributed_asynchronous.Scheduler.Tick as Scheduler
use distributed_asynchronous.Auth.Crypto.{Crypto}
use distributed_asynchronous.Api.Users.{UserCreate, TokenOut, Settings, Failure, is_valid_user}
use distributed_asynchronous.Api.Auth as Auth
use distributed_asynchronous.Api.Trigger as Trigger
use distributed_asynchronous.Api.Runs as Requests
use distributed_asynchronous.Api.Jobs.{JobCreate, CrudError, is_valid}
use distributed_asynchronous.Api.Jobs.Handlers as Handlers
use distributed_asynchronous.Api.Jobs.Update.{JobUpdate, is_valid_update, put_job}
use distributed_asynchronous.Models.Json.{Fields}

-- What the transactions use of other libraries and of the configuration: croniter, SQLAlchemy's test
-- for changed rows, hashing, and str(exc).
pub record Environment : Type 0 where
  pub get_next : Croniter
  pub cron_is_valid : String → Bool
  pub differs : Fields → Fields → Bool
  pub crypto : Crypto
  pub settings : Settings
  pub describe_error : CrudError → String

-- One transaction of a process, with its arguments. create_dependency_run is two: its last statement is
-- the UPDATE by id of the pending run that an earlier SELECT found, which other transactions may have
-- changed in between, or an INSERT.
-- A run is finished with the result of an executor; the
-- error may be another text than the result's.
pub data Transaction : Type 0 where
  register : UserCreate → (salt : List ℕ) → Transaction
  create_job : JobCreate → (user_id : ℕ) → Transaction
  update_job : (job_id : ℕ) → JobUpdate → (user_id : ℕ) → Transaction
  delete_job : (job_id user_id : ℕ) → Transaction
  trigger_job : (job_id user_id : ℕ) → Transaction
  retry_run : (run_id user_id : ℕ) → Transaction
  cancel_run : (run_id : ℕ) → Transaction
  schedule_due_jobs : Transaction
  claim_run : (run_id : ℕ) → (worker_id : String) → (allow_running : Bool) → Transaction
  append_logs : (run_id : ℕ) → List (String × String) → Transaction
  finish_run : (run_id : ℕ) → Ending → (error : Option String) → Transaction
  create_retry_run : (job_id attempt : ℕ) → Transaction
  promote_pending : (run_id : ℕ) → Transaction
  insert_dependency_run : (job_id : ℕ) → Transaction

-- session_scope, get_session of backend/common/db.py: what raises is rolled back, and the rest is committed.
abbrev pub committed {ℓ} : {E : Type 0} {A : Type ℓ} → Result E (A × Database) → Database → Database
committed (ok (a, later)) db = later
committed (err e) db = db

module _ (env : Environment) where
  open env use {get_next, cron_is_valid, differs, crypto, settings, describe_error}

  -- The database after a transaction. A payload that its schema does not accept is answered with 422
  -- before the handler runs.
  unfoldable pub transact : Transaction → Time → Database → Database
  transact (register payload salt) now db =
      if is_valid_user payload
      then committed (Auth.register crypto settings payload salt now db) db
      else db
  transact (create_job payload user_id) now db =
      if is_valid cron_is_valid payload
      then (Handlers.create_job describe_error payload user_id now db).db
      else db
  transact (update_job job_id payload user_id) now db =
      if is_valid_update payload
      then (put_job cron_is_valid differs describe_error job_id payload user_id now db).db
      else db
  transact (delete_job job_id user_id) now db = (Handlers.delete_job job_id user_id db).db
  transact (trigger_job job_id user_id) now db = (Trigger.trigger_job job_id user_id now db).db
  transact (retry_run run_id user_id) now db = (Requests.retry_run run_id user_id now db).db
  transact (cancel_run run_id) now db = (Store.cancel_run run_id now db).1
  transact schedule_due_jobs now db = committed (Scheduler.schedule_due_jobs get_next now db) db
  transact (claim_run run_id worker_id allow_running) now db =
      (Store.claim_run run_id worker_id allow_running now db).1
  transact (append_logs run_id entries) now db = Store.append_logs run_id entries now db
  transact (finish_run run_id ending error) now db =
      let result = exec_result ending in
      Store.finish_run run_id result.status result.exit_code result.result error now db
  transact (create_retry_run job_id attempt) now db =
      (Store.create_retry_run job_id attempt now db).1
  transact (promote_pending run_id) now db = Store.promote run_id db
  transact (insert_dependency_run job_id) now db =
      add_run (new_run job_id dependency queued 1 none now db) db

  -- Transactions, each at the time at which it reads the clock, in the order in which they commit.
  abbrev pub History : Type 0
  History = List (Transaction × Time)

  abbrev pub replay : History → Database → Database
  replay [] db = db
  replay ((t, now) ∷ rest) db = replay rest (transact t now db)

  -- The UPDATE of create_dependency_run finds the run as pending as the SELECT before it did: no other
  -- transaction has claimed, finished or canceled it in between.
  abbrev pub FindsPending : Transaction → Database → Type 0
  FindsPending (promote_pending run_id) db =
      (r : JobRun) → run_by_id run_id db ≡ some r → r.status ≡ pending
  FindsPending t db = Unit

  -- No promotion of a history is overtaken.
  abbrev pub Undisturbed : History → Database → Type 0
  Undisturbed [] db = Unit
  Undisturbed ((t, now) ∷ rest) db = FindsPending t db × Undisturbed rest (transact t now db)
