-- ===== src/Samples.antt =====
-- Concrete inputs, and the theorems of the development at them.
pub mod Runs
pub mod Requests
pub mod Schedules
pub mod Leaders
pub mod Commands
pub mod Updates
pub mod Polls
pub mod Workers
pub mod Accounts
pub mod Histories
pub mod Uploads
pub mod Schemas
use distributed_asynchronous.Prelude.{ℕ, ◌+◌, String, true, Option, none, some, List, [], ◌∷◌}
use distributed_asynchronous.Constants.{RunStatus, queued, manual}
use distributed_asynchronous.Constants.TaskType
use distributed_asynchronous.Constants.ScheduleType
use distributed_asynchronous.Models.{Time, Job, JobDependency, JobRun, Database, empty}
use distributed_asynchronous.Models.Json.{Fields, end}
use distributed_asynchronous.Store.Defs.{Claimed}

-- A job of user 7: it runs every minute, and has two retries, 10 s and 20 s apart.
abbrev pub job : ℕ → Job
job i = record {
  id = i;
  owner_user_id = some 7;
  name = "backup";
  description = none;
  category = none;
  task_type = TaskType.shell;
  task_spec = end;
  schedule_type = ScheduleType.interval;
  schedule_expr = some "60";
  timezone = "UTC";
  enabled = true;
  max_retries = 2;
  retry_backoff_sec = 10;
  timeout_sec = 300;
  last_scheduled_for = none;
  created_at = 0;
  updated_at = 0;
}

abbrev pub run : ℕ → ℕ → RunStatus → JobRun
run i job_id status = record {
  id = i;
  job_id = job_id;
  trigger_type = manual;
  status = status;
  attempt = 1;
  scheduled_for = none;
  started_at = none;
  finished_at = none;
  exit_code = none;
  result = none;
  error = none;
  worker_id = none;
  created_at = 1_000_000;
}

-- Two jobs, of which the second needs the first, and a run of the first.
abbrev pub one_run : RunStatus → Database
one_run status = record empty {
  jobs = job 1 ∷ job 2 ∷ [];
  dependencies = record { id = 1; job_id = 2; depends_on_job_id = 1 } ∷ [];
  runs = run 1 1 status ∷ [];
  next_job_id = 3;
  next_dependency_id = 2;
  next_run_id = 2;
}

abbrev pub claimed : Claimed
claimed = record {
  run_id = 1;
  job_id = 1;
  attempt = 1;
  task_type = TaskType.shell;
  task_spec = end;
  timeout_sec = 300;
  max_retries = 2;
  retry_backoff_sec = 10;
  job_name = "backup";
}
