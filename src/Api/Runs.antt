-- ===== src/Api/Runs.antt =====
-- backend/api/routers/runs.py: the runs of a user's jobs, retried and canceled by hand.
pub mod Changes
pub mod Listing
use distributed_asynchronous.Prelude.{
  ℕ, ◌+◌, ◌≤◌, Bool, false, not, ◌&&◌, ◌||◌, Option, none, some, List, [], ◌∷◌, ◌==◌, ltb, take,
  drop, String, if◌then◌else◌, joined, str_eq, Result, ok, err,
}
use distributed_asynchronous.Table.{select, first, order_by}
use distributed_asynchronous.Constants.{queued, retry, terminal, status_in, status_name}
use distributed_asynchronous.Models.{Time, JobRun, JobRunLog, Database, job_by_id}
use distributed_asynchronous.Store.Defs as Store
use distributed_asynchronous.Dispatch.{create_run, publish}
use distributed_asynchronous.Queue.{publish_cancel}
use distributed_asynchronous.Api.Http.{HttpError, not_found, conflict}
use distributed_asynchronous.Api.Trigger.{owned_by, Reply, refuse}

-- JOIN jobs ON jobs.id = job_runs.job_id WHERE jobs.owner_user_id = user_id
unfoldable pub is_owned : ℕ → Database → JobRun → Bool
is_owned user_id db run = elim (job_by_id run.job_id db) [
  | none ↦ false
  | some job ↦ owned_by user_id job.owner_user_id
]

-- _get_owned_run
unfoldable pub get_owned_run : ℕ → ℕ → Database → Option JobRun
get_owned_run run_id user_id db = first (λ run. run.id == run_id && is_owned user_id db run) db.runs

-- if status_filter is not None: ...
abbrev pub has_status : Option String → JobRun → Bool
has_status none run = Bool.true
has_status (some word) run = str_eq (status_name run.status) word

-- ORDER BY created_at DESC; the order of runs of one instant is that of the table.
abbrev pub is_newer : JobRun → JobRun → Bool
is_newer a b = ltb b.created_at a.created_at

unfoldable pub list_runs : Option String → (limit offset : ℕ) → ℕ → Database → List JobRun
list_runs status_filter limit offset user_id db = take limit (
    drop offset (
      order_by is_newer
        (select (λ run. is_owned user_id db run && has_status status_filter run) db.runs)))

unfoldable pub get_run : ℕ → ℕ → Database → Result HttpError JobRun
get_run run_id user_id db = elim (get_owned_run run_id user_id db) [
  | none ↦ err (not_found "run not found")
  | some run ↦ ok run
]

-- ORDER BY ts, id
abbrev pub is_earlier : JobRunLog → JobRunLog → Bool
is_earlier a b = ltb a.ts b.ts || (a.ts == b.ts && ltb a.id b.id)

unfoldable pub get_run_logs :
    ℕ → (limit offset : ℕ) → ℕ → Database → Result HttpError (List JobRunLog)
get_run_logs run_id limit offset user_id db = elim (get_owned_run run_id user_id db) [
  | none ↦ err (not_found "run not found")
  | some run ↦ ok (
      take limit (drop offset (order_by is_earlier (select (λ row. row.run_id == run_id) db.logs))))
]

unfoldable pub retry_run : ℕ → ℕ → Time → Database → Reply JobRun
unfolding create_run publish
retry_run run_id user_id now db = elim (get_owned_run run_id user_id db) [
  | none ↦ refuse (not_found "run not found") db
  | some run ↦
      let (new_run, db') = create_run run.job_id retry none (run.attempt + 1) queued now db in
      if not (status_in terminal run.status)
      then refuse
          (conflict (
            joined
              ("run is not in a terminal state (current: " ∷ status_name run.status ∷ ")" ∷ [])))
          db
      else record { answer = ok new_run; commands = publish new_run; db = db' }
]

-- The session reads the run, then `store.cancel_run` updates it in a transaction of its own:
-- `meanwhile` is what other transactions do in between.
unfoldable pub cancel_run : ℕ → ℕ → Time → (Database → Database) → Database → Reply JobRun
unfolding publish_cancel
cancel_run run_id user_id now meanwhile db = elim (get_owned_run run_id user_id db) [
  | none ↦ refuse (not_found "run not found") db
  | some run ↦
      let (done, db') = Store.cancel_run run_id now (meanwhile db) in
      if status_in terminal run.status
      then refuse
          (conflict
            (joined ("run is already terminal (current: " ∷ status_name run.status ∷ ")" ∷ [])))
          db
      else if not done
      then refuse (conflict "run could not be canceled") db'
      else record {
        answer = get_run run_id user_id db';
        commands = publish_cancel run_id;
        db = db';
      }
]
