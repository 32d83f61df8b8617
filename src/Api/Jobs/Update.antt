-- ===== src/Api/Jobs/Update.antt =====
-- update_job of backend/api/crud.py with JobUpdate of backend/common/schemas.py, and its handler in
-- backend/api/routers/jobs.py.
pub mod Merged
pub mod Effects
use distributed_asynchronous.Prelude.{
  ℕ, ◌≡◌, String, Bool, true, false, ◌&&◌, ◌==◌, leb, Option, none, some, List, [], if◌then◌else◌,
  Result, ok, err, codes, length, not, str_eq,
}
use distributed_asynchronous.Models.{Time, Job, Database, job_by_id}
use distributed_asynchronous.Models.Json.{Fields}
use distributed_asynchronous.Table.{update_where}
use distributed_asynchronous.Api.Http.{HttpError, not_found}
use distributed_asynchronous.Api.Trigger.{get_job, Reply, refuse}
use distributed_asynchronous.Api.Jobs.{
  JobCreate, CrudError, invalid_job, is_valid, validate_dependencies, set_dependencies,
}
use distributed_asynchronous.Api.Jobs.Handlers.{JobOut, job_to_dict}

-- A member of the request's JSON object: left out, null, or a value.
pub data Given {ℓ} (A : Type ℓ) : Type ℓ where
  unset null : Given A
  value : A → Given A

pub record JobUpdate : Type 0 where
  pub description : Given String
  pub category : Given String
  pub task_type : Given String
  pub task_spec : Given Fields
  pub schedule_type : Given String
  pub schedule_expr : Given String
  pub timezone : Given String
  pub enabled : Given Bool
  pub max_retries : Given ℕ
  pub retry_backoff_sec : Given ℕ
  pub timeout_sec : Given ℕ
  pub depends_on : Given (List ℕ)

abbrev holds {ℓ} : {A : Type ℓ} → (A → Bool) → Given A → Bool
holds test unset = true
holds test null = true
holds test (value x) = test x

-- Whether JobUpdate accepts the payload.
unfoldable pub is_valid_update : JobUpdate → Bool
is_valid_update payload =
    holds (λ s. leb (length (codes s)) 64) payload.category
    && holds (λ n. leb n 100) payload.max_retries
    && holds (λ n. leb n 86400) payload.retry_backoff_sec
    && holds (λ n. leb 1 n && leb n 86400) payload.timeout_sec

-- A member in place of a column; JobBase refuses null where the column has no null.
abbrev pub over {ℓ} : {A : Type ℓ} → Given A → A → Option A
over unset old = some old
over null old = none
over (value x) old = some x

abbrev pub over_nullable {ℓ} : {A : Type ℓ} → Given A → Option A → Option A
over_nullable unset old = old
over_nullable null old = none
over_nullable (value x) old = some x

-- depends_on, with null as if it were left out
abbrev pub given_ids : Given (List ℕ) → Option (List ℕ)
given_ids unset = none
given_ids null = none
given_ids (value ids) = some ids

-- depends_on or []
abbrev pub or_empty : Option (List ℕ) → List ℕ
or_empty none = []
or_empty (some ids) = ids

infixl 5 ◌>>=◌
abbrev pub ◌>>=◌ {ℓ κ} : {A : Type ℓ} {B : Type κ} → Option A → (A → Option B) → Option B
none >>= f = none
some x >>= f = f x

-- merged, as the arguments of JobBase; `none` where a value is null that must not be.
unfoldable pub merged : Job → JobUpdate → Option JobCreate
merged job payload = do
  task_type ← over payload.task_type job.task_type
  task_spec ← over payload.task_spec job.task_spec
  schedule_type ← over payload.schedule_type job.schedule_type
  timezone ← over payload.timezone job.timezone
  enabled ← over payload.enabled job.enabled
  max_retries ← over payload.max_retries job.max_retries
  retry_backoff_sec ← over payload.retry_backoff_sec job.retry_backoff_sec
  timeout_sec ← over payload.timeout_sec job.timeout_sec
  some (record {
    name = job.name;
    description = over_nullable payload.description job.description;
    category = over_nullable payload.category job.category;
    task_type = task_type;
    task_spec = task_spec;
    schedule_type = schedule_type;
    schedule_expr = over_nullable payload.schedule_expr job.schedule_expr;
    timezone = timezone;
    enabled = enabled;
    max_retries = max_retries;
    retry_backoff_sec = retry_backoff_sec;
    timeout_sec = timeout_sec;
    depends_on = or_empty (given_ids payload.depends_on);
  })

-- setattr for each member: the columns of the job become the merged ones.
unfoldable pub set_columns : JobCreate → Job → Job
set_columns p job = record job {
  description = p.description;
  category = p.category;
  task_type = p.task_type;
  task_spec = p.task_spec;
  schedule_type = p.schedule_type;
  schedule_expr = p.schedule_expr;
  timezone = p.timezone;
  enabled = p.enabled;
  max_retries = p.max_retries;
  retry_backoff_sec = p.retry_backoff_sec;
  timeout_sec = p.timeout_sec;
}

abbrev pub replace_dependencies : (job_id : ℕ) → Option (List ℕ) → Database → Database
replace_dependencies job_id none db = db
replace_dependencies job_id (some ids) db = set_dependencies job_id ids db

abbrev pub refused_ids : Job → (owner_user_id : ℕ) → Option (List ℕ) → Database → Option CrudError
refused_ids job owner none db = none
refused_ids job owner (some ids) db = validate_dependencies (some job.id) owner ids db

-- A column that SQLAlchemy writes only where its value differs from the one that was read.
abbrev pub changed_text : (seen new current : String) → String
changed_text seen new current = if str_eq seen new then current else new

abbrev pub opt_eq : Option String → Option String → Bool
opt_eq none none = true
opt_eq none (some b) = false
opt_eq (some a) none = false
opt_eq (some a) (some b) = str_eq a b

abbrev pub changed_option : (seen new current : Option String) → Option String
changed_option seen new current = if opt_eq seen new then current else new

abbrev pub bool_eq : Bool → Bool → Bool
bool_eq true b = b
bool_eq false b = not b

abbrev pub changed_bool : (seen new current : Bool) → Bool
changed_bool seen new current = if bool_eq seen new then current else new

abbrev pub changed_number : (seen new current : ℕ) → ℕ
changed_number seen new current = if seen == new then current else new

-- `cron_is_valid` is croniter.is_valid, and `differs` is Python's `!=` on two JSON objects.
module _ (cron_is_valid : String → Bool) (differs : Fields → Fields → Bool) where
  -- Whether the row that was read has changes to write.
  abbrev pub has_changes : (seen new : Job) → Bool
  has_changes seen new = not (
      opt_eq seen.description new.description
      && opt_eq seen.category new.category
      && str_eq seen.task_type new.task_type
      && not (differs seen.task_spec new.task_spec)
      && str_eq seen.schedule_type new.schedule_type
      && opt_eq seen.schedule_expr new.schedule_expr
      && str_eq seen.timezone new.timezone
      && bool_eq seen.enabled new.enabled
      && seen.max_retries == new.max_retries
      && seen.retry_backoff_sec == new.retry_backoff_sec
      && seen.timeout_sec == new.timeout_sec)

  -- The attributes of the job in the session; `updated_at` is set when there are changes to write.
  unfoldable pub written : JobCreate → Time → Job → Job
  written p now job =
      let job' = set_columns p job in
      if has_changes job job' then record job' { updated_at = now } else job'

  -- The UPDATE of session.flush() on the row as it is then: `seen` is the row as it was read.
  unfoldable pub write_changes : (seen new current : Job) → Job
  write_changes seen new current = record current {
    description = changed_option seen.description new.description current.description;
    category = changed_option seen.category new.category current.category;
    task_type = changed_text seen.task_type new.task_type current.task_type;
    task_spec = if differs seen.task_spec new.task_spec then new.task_spec else current.task_spec;
    schedule_type = changed_text seen.schedule_type new.schedule_type current.schedule_type;
    schedule_expr = changed_option seen.schedule_expr new.schedule_expr current.schedule_expr;
    timezone = changed_text seen.timezone new.timezone current.timezone;
    enabled = changed_bool seen.enabled new.enabled current.enabled;
    max_retries = changed_number seen.max_retries new.max_retries current.max_retries;
    retry_backoff_sec =
        changed_number seen.retry_backoff_sec new.retry_backoff_sec current.retry_backoff_sec;
    timeout_sec = changed_number seen.timeout_sec new.timeout_sec current.timeout_sec;
    updated_at = changed_number seen.updated_at new.updated_at current.updated_at;
  }

  -- session.flush(), with the dependencies, and session.commit()
  unfoldable pub store_job : (seen new : Job) → Option (List ℕ) → Database → Database
  store_job seen new ids db =
      replace_dependencies seen.id ids
        (record db { jobs = update_where (λ j. j.id == seen.id) (write_changes seen new) db.jobs })

  -- session.refresh(job); a row that is gone leaves the attributes as they are.
  abbrev pub refreshed : Job → Database → Job
  refreshed job db = elim (job_by_id job.id db) [ none ↦ job | some row ↦ row ]

  abbrev pub update_checked :
      Option CrudError
      → Option JobCreate
      → Job
      → Option (List ℕ)
      → Time
      → Database
      → Result CrudError (Job × Database)
  update_checked (some e) p job ids now db = err e
  update_checked none none job ids now db = err invalid_job
  update_checked none (some p) job ids now db =
      let job' = written p now job in
      let db' = store_job job job' ids db in
      if is_valid cron_is_valid p then ok (refreshed job' db', db') else err invalid_job

  -- crud.update_job for a job of the user `owner_user_id`
  unfoldable pub update_job :
      Job → JobUpdate → (owner_user_id : ℕ) → Time → Database → Result CrudError (Job × Database)
  update_job job payload owner now db =
      let ids = given_ids payload.depends_on in
      update_checked (refused_ids job owner ids db) (merged job payload) job ids now db

  abbrev pub bad_request : String → HttpError
  bad_request detail = record { status_code = 400; detail = detail }

  abbrev pub answer_update :
      (describe_error : CrudError → String)
      → Result CrudError (Job × Database)
      → Database
      → Reply JobOut
  answer_update describe_error (err e) db = refuse (bad_request (describe_error e)) db
  answer_update describe_error (ok (job, db')) db = record {
    answer = ok (job_to_dict db' job);
    commands = [];
    db = db';
  }

  abbrev pub put_found :
      (describe_error : CrudError → String)
      → Option Job
      → JobUpdate
      → (user_id : ℕ) → Time
      → Database
      → Reply JobOut
  put_found describe_error none payload user_id now db = refuse (not_found "job not found") db
  put_found describe_error (some job) payload user_id now db =
      answer_update describe_error (update_job job payload user_id now db) db

  -- The handler; `describe_error` is str(exc).
  unfoldable pub put_job :
      (describe_error : CrudError → String)
      → (job_id : ℕ) → JobUpdate
      → (user_id : ℕ) → Time
      → Database
      → Reply JobOut
  put_job describe_error job_id payload user_id now db =
      put_found describe_error (get_job job_id user_id db) payload user_id now db
