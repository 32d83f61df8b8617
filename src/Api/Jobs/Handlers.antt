-- ===== src/Api/Jobs/Handlers.antt =====
-- The request handlers of backend/api/routers/jobs.py that read, create and delete jobs.
pub mod Delete
use distributed_asynchronous.Prelude.{
  ℕ, Bool, true, false, not, ◌&&◌, ◌||◌, Option, none, some, String, List, [], ◌∷◌, map, ◌==◌, ltb,
  take, drop, contains, if◌then◌else◌, Result, ok, err,
}
use distributed_asynchronous.Table.{select, first, order_by}
use distributed_asynchronous.Models.{Time, Job, JobRun, Database}
use distributed_asynchronous.Store.Defs.{dependency_ids}
use distributed_asynchronous.Api.Http.{HttpError, not_found, conflict}
use distributed_asynchronous.Api.Trigger.{owned_by, Reply, refuse}
use distributed_asynchronous.Api.Trigger.{get_job as find_job}
use distributed_asynchronous.Api.Runs.{is_newer}
use distributed_asynchronous.Api.Jobs as Crud
use distributed_asynchronous.Api.Jobs.{JobCreate, CrudError}

-- The dictionary of crud.job_to_dict: the columns of the job, less last_scheduled_for, and the ids of
-- its dependencies.
pub record JobOut : Type 0 where
  pub job : Job
  pub depends_on : List ℕ

unfoldable pub job_to_dict : Database → Job → JobOut
job_to_dict db job = record { job = job; depends_on = dependency_ids job.id db }

-- crud.delete_job: the runs with their logs and the dependencies are deleted with the job.
unfoldable pub delete_rows : (job_id : ℕ) → Database → Database
delete_rows job_id db =
    let runs = map (λ r. r.id) (select (λ (r : JobRun). r.job_id == job_id) db.runs) in
    record db {
      jobs = select (λ j. not (j.id == job_id)) db.jobs;
      dependencies =
          select (λ d. not (d.job_id == job_id) && not (d.depends_on_job_id == job_id))
            db.dependencies;
      runs = select (λ r. not (r.job_id == job_id)) db.runs;
      logs = select (λ l. not (contains runs l.run_id)) db.logs;
    }

-- `describe_error` is str(exc).
unfoldable pub create_job :
    (describe_error : CrudError → String)
    → JobCreate
    → (user_id : ℕ) → Time
    → Database
    → Reply JobOut
unfolding job_to_dict
create_job describe_error payload user_id now db = elim (Crud.create_job payload user_id now db) [
  | err e ↦ refuse (conflict (describe_error e)) db
  | ok (job, db') ↦ record { answer = ok (job_to_dict db' job); commands = []; db = db' }
]

unfoldable pub list_jobs : Option Bool → (limit offset user_id : ℕ) → Database → List JobOut
unfolding job_to_dict
list_jobs enabled limit offset user_id db =
    map (job_to_dict db) (Crud.list_jobs enabled limit offset user_id db)

-- ORDER BY created_at DESC; the order of jobs of one instant is that of the table.
abbrev pub is_younger : Job → Job → Bool
is_younger a b = ltb b.created_at a.created_at

unfoldable pub list_recent_jobs : (limit user_id : ℕ) → Database → List (JobOut × Option JobRun)
unfolding job_to_dict
list_recent_jobs limit user_id db =
    map
      (λ job. (
        job_to_dict db job,
        first (λ r. true) (order_by is_newer (select (λ r. r.job_id == job.id) db.runs)),
      ))
      (take limit
        (order_by is_younger (select (λ job. owned_by user_id job.owner_user_id) db.jobs)))

unfoldable pub get_job : (job_id user_id : ℕ) → Database → Result HttpError JobOut
unfolding job_to_dict
get_job job_id user_id db = elim (find_job job_id user_id db) [
  | none ↦ err (not_found "job not found")
  | some job ↦ ok (job_to_dict db job)
]

unfoldable pub delete_job : (job_id user_id : ℕ) → Database → Reply (Unit {0})
unfolding delete_rows
delete_job job_id user_id db = elim (find_job job_id user_id db) [
  | none ↦ refuse (not_found "job not found") db
  | some job ↦ record { answer = ok tt; commands = []; db = delete_rows job.id db }
]
