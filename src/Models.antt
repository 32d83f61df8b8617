-- ===== src/Models.antt =====
-- backend/common/models.py: the tables, their rows, and the constraint on ticks that the
-- database enforces. A time is a number of microseconds since the epoch, in UTC.
pub mod Json
pub mod Ticks
pub mod Progress
pub mod Untouched
use distributed_asynchronous.Prelude.{ℕ, ◌+◌, ◌*◌, String, Bool, Option, none, List, [], ◌∷◌, ◌++◌}
use distributed_asynchronous.Constants.{RunStatus, TriggerType}
use distributed_asynchronous.Table.{by_key}
use Json.{ℤ, Fields}

abbrev pub Time : Type 0
Time = ℕ

-- timedelta(seconds=n)
abbrev pub seconds : ℕ → Time
seconds n = n * 1_000_000

pub record User : Type 0 where
  pub id : ℕ
  pub username : String
  pub email : Option String
  -- the code points of the text
  pub password_hash : List ℕ
  pub is_active : Bool
  pub created_at : Time
  pub updated_at : Time

pub record Job : Type 0 where
  pub id : ℕ
  pub owner_user_id : Option ℕ
  pub name : String
  pub description : Option String
  pub category : Option String
  pub task_type : String
  pub task_spec : Fields
  pub schedule_type : String
  pub schedule_expr : Option String
  pub timezone : String
  pub enabled : Bool
  pub max_retries : ℕ
  pub retry_backoff_sec : ℕ
  pub timeout_sec : ℕ
  pub last_scheduled_for : Option Time
  pub created_at : Time
  pub updated_at : Time

pub record JobDependency : Type 0 where
  pub id : ℕ
  pub job_id : ℕ
  pub depends_on_job_id : ℕ

pub record JobRun : Type 0 where
  pub id : ℕ
  pub job_id : ℕ
  pub trigger_type : TriggerType
  pub status : RunStatus
  pub attempt : ℕ
  pub scheduled_for : Option Time
  pub started_at : Option Time
  pub finished_at : Option Time
  pub exit_code : Option ℤ
  pub result : Option Fields
  pub error : Option String
  pub worker_id : Option String
  pub created_at : Time

pub record JobRunLog : Type 0 where
  pub id : ℕ
  pub run_id : ℕ
  pub ts : Time
  pub stream : String
  pub line : String

-- The database: its tables, and the next value of each id sequence.
pub record Database : Type 0 where
  pub users : List User
  pub jobs : List Job
  pub dependencies : List JobDependency
  pub runs : List JobRun
  pub logs : List JobRunLog
  pub next_user_id : ℕ
  pub next_job_id : ℕ
  pub next_dependency_id : ℕ
  pub next_run_id : ℕ
  pub next_log_id : ℕ

-- session.get(JobRun, id), session.get(Job, id)
unfoldable pub run_by_id : ℕ → Database → Option JobRun
unfolding by_key
run_by_id i db = by_key (λ r. r.id) i db.runs

unfoldable pub job_by_id : ℕ → Database → Option Job
unfolding by_key
job_by_id i db = by_key (λ j. j.id) i db.jobs

-- JobRun(job_id=..., trigger_type=..., status=..., attempt=..., scheduled_for=...): the other
-- columns take their defaults, and `flush` takes the id from the sequence.
unfoldable pub new_run : ℕ → TriggerType → RunStatus → ℕ → Option Time → Time → Database → JobRun
new_run job_id trigger_type status attempt scheduled_for now db = record {
  id = db.next_run_id;
  job_id = job_id;
  trigger_type = trigger_type;
  status = status;
  attempt = attempt;
  scheduled_for = scheduled_for;
  started_at = none;
  finished_at = none;
  exit_code = none;
  result = none;
  error = none;
  worker_id = none;
  created_at = now;
}

-- session.add(run); session.flush()
unfoldable pub add_run : JobRun → Database → Database
add_run run db = record db { runs = db.runs ++ run ∷ []; next_run_id = db.next_run_id + 1 }

abbrev pub empty : Database
empty = record {
  users = [];
  jobs = [];
  dependencies = [];
  runs = [];
  logs = [];
  next_user_id = 1;
  next_job_id = 1;
  next_dependency_id = 1;
  next_run_id = 1;
  next_log_id = 1;
}
