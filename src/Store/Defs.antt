-- ===== src/Store/Defs.antt =====
-- backend/worker/store.py, function by function. Each is the function with nothing of another
-- process inside it; System splits `create_dependency_run` at the place where another transaction can
-- commit. The foreign key errors for a run or a job that was deleted meanwhile are left out.
use distributed_asynchronous.Prelude.{
  ℕ, ◌+◌, String, Bool, true, false, not, ◌&&◌, Option, none, some, List, [], ◌∷◌, ◌++◌, map, ltb,
  ◌==◌, if◌then◌else◌, is_some, contains, dedup,
}
use distributed_asynchronous.Table.{select, first, update_where, rowcount, earliest}
use distributed_asynchronous.Constants.{
  RunStatus, pending, queued, running, succeeded, canceled, dependency, retry, status_eq, status_in,
}
use distributed_asynchronous.Models.{
  Time, Job, JobRun, JobRunLog, Database, run_by_id, job_by_id, new_run, add_run,
}
use distributed_asynchronous.Models.Json.{ℤ, Fields}

-- _ACTIVE
abbrev pub active : List RunStatus
active = pending ∷ queued ∷ running ∷ []

-- The dictionary that `claim_run` returns.
pub record Claimed : Type 0 where
  pub run_id : ℕ
  pub job_id : ℕ
  pub attempt : ℕ
  pub task_type : String
  pub task_spec : Fields
  pub timeout_sec : ℕ
  pub max_retries : ℕ
  pub retry_backoff_sec : ℕ
  pub job_name : String

abbrev pub allowed : Bool → List RunStatus
allowed allow_running = if allow_running then active else pending ∷ queued ∷ []

abbrev pub describe : Option JobRun → Option Job → Option Claimed
describe (some run) (some job) = some (record {
  run_id = run.id;
  job_id = run.job_id;
  attempt = run.attempt;
  task_type = job.task_type;
  task_spec = job.task_spec;
  timeout_sec = job.timeout_sec;
  max_retries = job.max_retries;
  retry_backoff_sec = job.retry_backoff_sec;
  job_name = job.name;
})
describe (some run) none = none
describe none job = none

-- update(JobRun).where(...).values(status=RUNNING, started_at=now, worker_id=worker_id)
unfoldable pub mark_running : ℕ → String → Bool → Time → Database → Database
mark_running run_id worker_id allow_running now db = record db {
  runs =
      update_where (λ run. run.id == run_id && status_in (allowed allow_running) run.status)
        (λ run. record run { status = running; started_at = some now; worker_id = some worker_id })
        db.runs;
}

abbrev job_of : Option JobRun → Database → Option Job
job_of none db = none
job_of (some run) db = job_by_id run.job_id db

-- The early return for a missing job leaves the `with` block, which commits the update.
unfoldable pub claim_run : ℕ → String → Bool → Time → Database → Option Claimed × Database
unfolding mark_running
claim_run run_id worker_id allow_running now db =
    let matched =
      rowcount (λ run. run.id == run_id && status_in (allowed allow_running) run.status) db.runs in
    let db' = mark_running run_id worker_id allow_running now db in
    let run = run_by_id run_id db' in
    if matched == 0 then (none, db') else (describe run (job_of run db'), db')

abbrev pub log_rows : ℕ → Time → ℕ → List (String × String) → List JobRunLog
log_rows run_id now next [] = []
log_rows run_id now next ((stream, line) ∷ entries) =
    record { id = next; run_id = run_id; ts = now; stream = stream; line = line }
    ∷ log_rows run_id now (next + 1) entries

abbrev count {ℓ} : {A : Type ℓ} → List A → ℕ
count [] = 0
count (x ∷ xs) = count xs + 1

unfoldable pub append_logs : ℕ → List (String × String) → Time → Database → Database
append_logs run_id [] now db = db
append_logs run_id (entry ∷ entries) now db = record db {
  logs = db.logs ++ log_rows run_id now db.next_log_id (entry ∷ entries);
  next_log_id = db.next_log_id + count (entry ∷ entries);
}

unfoldable pub cancel_run : ℕ → Time → Database → Bool × Database
cancel_run run_id now db =
    let test = λ (run : JobRun). run.id == run_id && status_in active run.status in
    (
      ltb 0 (rowcount test db.runs),
      record db {
        runs =
            update_where test
              (λ run. record run {
                status = canceled;
                finished_at = some now;
                error = some "canceled by user";
              })
              db.runs;
      },
    )

unfoldable pub is_run_canceled : ℕ → Database → Bool
is_run_canceled run_id db =
    is_some (first (λ run. run.id == run_id && status_eq run.status canceled) db.runs)

unfoldable pub finish_run :
    ℕ → RunStatus → Option ℤ → Option Fields → Option String → Time → Database → Database
finish_run run_id status exit_code result error now db = record db {
  runs =
      update_where (λ run. run.id == run_id && not (status_eq run.status canceled))
        (λ run. record run {
          status = status;
          finished_at = some now;
          exit_code = exit_code;
          result = result;
          error = error;
        })
        db.runs;
}

unfoldable pub create_retry_run : ℕ → ℕ → Time → Database → ℕ × Database
create_retry_run job_id attempt now db =
    let run = new_run job_id retry queued attempt none now db in (run.id, add_run run db)

unfoldable pub has_dispatched_run : ℕ → Database → Bool
has_dispatched_run job_id db =
    is_some
      (first (λ run. run.job_id == job_id && status_in (queued ∷ running ∷ []) run.status) db.runs)

unfoldable pub pending_run : ℕ → Database → Option JobRun
pending_run job_id db =
    earliest (λ run. run.created_at)
      (select (λ run. run.job_id == job_id && status_eq run.status pending) db.runs)

-- select(JobDependency.depends_on_job_id).where(JobDependency.job_id == job_id)
unfoldable pub dependency_ids : ℕ → Database → List ℕ
dependency_ids job_id db =
    map (λ d. d.depends_on_job_id) (select (λ d. d.job_id == job_id) db.dependencies)

-- select(JobDependency.job_id).where(JobDependency.depends_on_job_id == job_id)
unfoldable pub dependent_ids : ℕ → Database → List ℕ
dependent_ids job_id db =
    map (λ d. d.job_id) (select (λ d. d.depends_on_job_id == job_id) db.dependencies)

abbrev pub all_in : List ℕ → List ℕ → Bool
all_in [] ys = true
all_in (x ∷ xs) ys = contains ys x && all_in xs ys

-- set(xs) == set(ys)
abbrev pub same_set : List ℕ → List ℕ → Bool
same_set xs ys = all_in xs ys && all_in ys xs

unfoldable pub succeeded_jobs : List ℕ → Database → List ℕ
succeeded_jobs ids db = dedup (
    map (λ run. run.job_id)
      (select (λ run. contains ids run.job_id && status_eq run.status succeeded) db.runs))

abbrev deps_met : List ℕ → Database → Bool
deps_met [] db = true
deps_met (d ∷ ds) db = same_set (d ∷ ds) (succeeded_jobs (d ∷ ds) db)

unfoldable pub all_dependencies_succeeded : ℕ → Database → Bool
all_dependencies_succeeded job_id db = deps_met (dedup (dependency_ids job_id db)) db

-- The body of the loop of `dependents_ready`: whether the job is appended.
unfoldable pub is_ready : ℕ → Database → Bool
is_ready job_id db = elim (job_by_id job_id db) [
  | none ↦ false
  | some job ↦
      if not job.enabled && not (is_some (pending_run job_id db))
      then false
      else if has_dispatched_run job_id db
      then false
      else all_dependencies_succeeded job_id db
]

unfoldable pub dependents_ready : ℕ → Database → List ℕ
dependents_ready job_id db = select (λ d. is_ready d db) (dedup (dependent_ids job_id db))

-- `pending.status = QUEUED` on the row with that id
abbrev pub promote : ℕ → Database → Database
promote run_id db = record db {
  runs = update_where (λ run. run.id == run_id) (λ run. record run { status = queued }) db.runs;
}

unfoldable pub create_dependency_run : ℕ → Time → Database → Option ℕ × Database
create_dependency_run job_id now db =
    if has_dispatched_run job_id db then (none, db) else elim (pending_run job_id db) [
      | some run ↦ (some run.id, promote run.id db)
      | none ↦
          let run = new_run job_id dependency queued 1 none now db in (some run.id, add_run run db)
    ]
