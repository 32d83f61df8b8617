-- ===== src/Api/Jobs.antt =====
-- backend/api/crud.py, and the requests for jobs and their runs of backend/api/routers/jobs.py.
pub mod Create
pub mod Acyclic
pub mod Handlers
pub mod Update
pub mod Validation
pub mod Drafts
use distributed_asynchronous.Prelude.{
  ℕ, ◌+◌, ◌≤◌, Bool, true, false, not, ◌&&◌, ◌||◌, Option, none, some, String, List, [], ◌∷◌, ◌++◌,
  map, ◌==◌, ltb, leb, contains, dedup, take, drop, length, codes, if◌then◌else◌, str_eq, Result,
  ok, err,
}
use distributed_asynchronous.Table.{select, first, order_by}
use distributed_asynchronous.Constants.{word_in}
use distributed_asynchronous.Constants.TaskType
use distributed_asynchronous.Constants.ScheduleType
use distributed_asynchronous.Models.{Time, Job, JobDependency, JobRun, JobRunLog, Database}
use distributed_asynchronous.Models.Json.{Fields, has}
use distributed_asynchronous.Scheduler.Cron.{isdigit, int}
use distributed_asynchronous.Api.Http.{HttpError, not_found}
use distributed_asynchronous.Api.Trigger.{owned_by, get_job}
use distributed_asynchronous.Api.Runs.{has_status, is_newer, is_earlier}

-- schemas.py: JobBase, and JobCreate. The bounds `ge=0` are in the type of the numbers.
pub record JobCreate : Type 0 where
  pub name : String
  pub description : Option String
  pub category : Option String
  pub task_type : String
  pub task_spec : Fields
  pub schedule_type : String
  pub schedule_expr : Option String
  pub timezone : String
  pub enabled : Bool
  pub max_retries : ℕ
  pub retry_backoff_sec : ℕ
  pub timeout_sec : ℕ
  pub depends_on : List ℕ

-- Field(max_length=n)
abbrev fits : ℕ → String → Bool
fits n s = leb (length (codes s)) n

abbrev fits_option : ℕ → Option String → Bool
fits_option n none = true
fits_option n (some s) = fits n s

-- _validate_schedule_expr; the first argument is croniter.is_valid.
unfoldable pub is_valid_schedule : (String → Bool) → (schedule_type : String) → Option String → Bool
unfolding isdigit int
is_valid_schedule cron_is_valid schedule_type expr =
    if str_eq schedule_type ScheduleType.cron
    then (elim expr [ none ↦ false | some e ↦ not (str_eq e "") && cron_is_valid e ])
    else if str_eq schedule_type ScheduleType.interval
    then (elim expr [
      | none ↦ false
      | some e ↦ not (str_eq e "") && isdigit e && not (leb (int e) 0)
    ])
    else true

-- _validate_task_spec
unfoldable pub is_valid_task_spec : (task_type : String) → Fields → Bool
unfolding has
is_valid_task_spec task_type spec =
    if word_in (TaskType.http ∷ TaskType.http_async ∷ []) task_type
    then has "url" spec
    else if str_eq task_type TaskType.shell
    then has "command" spec
    else true

-- The constraints on single fields, and the validators of `task_type` and `schedule_type`.
abbrev are_valid_fields : JobCreate → Bool
are_valid_fields p =
    not (str_eq p.name "")
    && fits 255 p.name
    && fits_option 64 p.category
    && leb p.max_retries 100
    && leb p.retry_backoff_sec 86400
    && leb 1 p.timeout_sec
    && leb p.timeout_sec 86400
    && word_in TaskType.all p.task_type
    && word_in ScheduleType.all p.schedule_type

-- Whether JobBase accepts the payload.
unfoldable pub is_valid : (String → Bool) → JobCreate → Bool
unfolding is_valid_schedule is_valid_task_spec
is_valid cron_is_valid p =
    if are_valid_fields p
    then if is_valid_schedule cron_is_valid p.schedule_type p.schedule_expr
      then is_valid_task_spec p.task_type p.task_spec
      else false
    else false

-- The ways in which CrudError is raised here.
pub data CrudError : Type 0 where
  name_exists : String → CrudError
  self_dependency : CrudError
  unknown_dependencies : List ℕ → CrudError
  invalid_job : CrudError

abbrev is_self : Option ℕ → List ℕ → Bool
is_self none ids = false
is_self (some job_id) ids = contains ids job_id

-- unique - set(found): the ids without a job of the user
unfoldable pub missing : (owner_user_id : ℕ) → List ℕ → Database → List ℕ
missing owner ids db =
    let found =
      map (λ job. job.id)
        (select (λ job. contains ids job.id && owned_by owner job.owner_user_id) db.jobs) in
    select (λ d. not (contains found d)) ids

-- _validate_dependencies: what it raises, if anything
unfoldable pub validate_dependencies :
    Option ℕ → (owner_user_id : ℕ) → List ℕ → Database → Option CrudError
unfolding missing
validate_dependencies job_id owner depends_on db =
    if is_self job_id (dedup depends_on)
    then some self_dependency
    else elim (missing owner (dedup depends_on) db) [
      | [] ↦ none
      | d ∷ ds ↦ some (unknown_dependencies (d ∷ ds))
    ]

abbrev pub dependency_rows : (job_id next : ℕ) → List ℕ → List JobDependency
dependency_rows job_id next [] = []
dependency_rows job_id next (d ∷ ds) =
    record { id = next; job_id = job_id; depends_on_job_id = d }
    ∷ dependency_rows job_id (next + 1) ds

-- _set_dependencies
unfoldable pub set_dependencies : (job_id : ℕ) → List ℕ → Database → Database
set_dependencies job_id depends_on db = record db {
  dependencies =
      select (λ d. not (d.job_id == job_id)) db.dependencies
      ++ dependency_rows job_id db.next_dependency_id (dedup depends_on);
  next_dependency_id = db.next_dependency_id + length (dedup depends_on);
}

abbrev pub new_job : JobCreate → (owner_user_id : ℕ) → Time → Database → Job
new_job p owner now db = record {
  id = db.next_job_id;
  owner_user_id = some owner;
  name = p.name;
  description = p.description;
  category = p.category;
  task_type = p.task_type;
  task_spec = p.task_spec;
  schedule_type = p.schedule_type;
  schedule_expr = p.schedule_expr;
  timezone = p.timezone;
  enabled = p.enabled;
  max_retries = p.max_retries;
  retry_backoff_sec = p.retry_backoff_sec;
  timeout_sec = p.timeout_sec;
  last_scheduled_for = none;
  created_at = now;
  updated_at = now;
}

abbrev pub add_job : Job → Database → Database
add_job job db = record db { jobs = db.jobs ++ job ∷ []; next_job_id = db.next_job_id + 1 }

unfoldable pub create_job :
    JobCreate → (owner_user_id : ℕ) → Time → Database → Result CrudError (Job × Database)
unfolding validate_dependencies set_dependencies
create_job p owner now db =
    elim (first (λ job. owned_by owner job.owner_user_id && str_eq job.name p.name) db.jobs) [
      | some existing ↦ err (name_exists p.name)
      | none ↦ elim (validate_dependencies none owner p.depends_on db) [
        | some e ↦ err e
        | none ↦
            let job = new_job p owner now db in
            ok (job, set_dependencies job.id p.depends_on (add_job job db))
      ]
    ]

abbrev has_enabled : Option Bool → Job → Bool
has_enabled none job = true
has_enabled (some b) job = if b then job.enabled else not job.enabled

-- crud.list_jobs; ORDER BY id is the order of the table.
unfoldable pub list_jobs : Option Bool → (limit offset owner_user_id : ℕ) → Database → List Job
list_jobs enabled limit offset owner db = take limit (
    drop offset
      (select (λ job. owned_by owner job.owner_user_id && has_enabled enabled job) db.jobs))

-- get_latest_job_run
unfoldable pub get_latest_job_run : ℕ → ℕ → Database → Result HttpError (Option JobRun)
get_latest_job_run job_id user_id db = elim (get_job job_id user_id db) [
  | none ↦ err (not_found "job not found")
  | some job ↦ ok (first (λ r. true) (order_by is_newer (select (λ r. r.job_id == job_id) db.runs)))
]

-- get_latest_job_run_logs
unfoldable pub get_latest_job_run_logs :
    ℕ → (limit offset user_id : ℕ) → Database → Result HttpError (List JobRunLog)
unfolding get_latest_job_run
get_latest_job_run_logs job_id limit offset user_id db =
    elim (get_latest_job_run job_id user_id db) [
      | err e ↦ err e
      | ok none ↦ ok []
      | ok (some latest) ↦ ok (
          take limit
            (drop offset (order_by is_earlier (select (λ l. l.run_id == latest.id) db.logs))))
    ]

-- list_job_runs
unfoldable pub list_job_runs :
    ℕ → Option String → (limit offset user_id : ℕ) → Database → Result HttpError (List JobRun)
list_job_runs job_id status_filter limit offset user_id db = elim (get_job job_id user_id db) [
  | none ↦ err (not_found "job not found")
  | some job ↦ ok (
      take limit (
        drop offset (
          order_by is_newer
            (select (λ r. r.job_id == job_id && has_status status_filter r) db.runs))))
]
