-- ===== src/Samples/Updates.antt =====
-- A request to update a job, at the database of Samples/Requests.
use distributed_asynchronous.Prelude.{◌≡◌, arith, true, false, some, [], ◌∷◌}
use distributed_asynchronous.Constants.{succeeded}
use distributed_asynchronous.Models.{Database, job_by_id}
use distributed_asynchronous.Table.{by_key}
use distributed_asynchronous.Api.Jobs.Create.{ValidJobs}
use distributed_asynchronous.Api.Jobs.Update.{JobUpdate, unset, value, update_job}
use distributed_asynchronous.Api.Jobs.Update.Effects.{Updates, update_job-Updates}
use distributed_asynchronous.Samples.{job, one_run}

abbrev given : Database
given = one_run succeeded

-- The second job is disabled, and depends on the first.
abbrev payload : JobUpdate
payload = record {
  description = unset;
  category = unset;
  task_type = unset;
  task_spec = unset;
  schedule_type = unset;
  schedule_expr = unset;
  timezone = unset;
  enabled = value false;
  max_retries = value 3;
  retry_backoff_sec = unset;
  timeout_sec = unset;
  depends_on = value (1 ∷ 1 ∷ []);
}

given-ValidJobs : ValidJobs given
given-ValidJobs = omega arith

second_stored : job_by_id 2 given ≡ some (job 2)
unfolding job_by_id by_key
second_stored = ground arith

update_job_example :
    Updates
      (λ e. true)
      (λ a b. true)
      (job 2)
      payload
      7
      given
      (update_job (λ e. true) (λ a b. true) (job 2) payload 7 9 given)
update_job_example =
    update_job-Updates (λ e. true) (λ a b. true) (job 2) payload 7 9 given given-ValidJobs
      second_stored
