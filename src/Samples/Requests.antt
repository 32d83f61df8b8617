-- ===== src/Samples/Requests.antt =====
-- The theorems on requests to the API, at a database with two jobs.
use distributed_asynchronous.Prelude.{ℕ, ◌≡◌, refl, true, none, some, [], ◌∷◌, arith, ok}
use distributed_asynchronous.Table.{select, first}
use distributed_asynchronous.Constants.{succeeded, running}
use distributed_asynchronous.Constants.TaskType
use distributed_asynchronous.Constants.ScheduleType
use distributed_asynchronous.Models.{JobRun, Database}
use distributed_asynchronous.Models.Progress.{IsValid}
use distributed_asynchronous.Models.Json.{end, field, text}
use distributed_asynchronous.Store.Defs.{dependency_ids, finish_run}
use distributed_asynchronous.Store.Progress.{finish_run-Progress}
use distributed_asynchronous.Api.Runs.{retry_run, cancel_run}
use distributed_asynchronous.Api.Runs.Changes.{
  Retries, retry_run-Retries, Cancels, cancel_run-Cancels,
}
use distributed_asynchronous.Api.Jobs.{
  JobCreate, missing, validate_dependencies, set_dependencies, new_job, add_job, create_job,
}
use distributed_asynchronous.Api.Jobs.Create.{
  ValidJobs, ValidDependencies, Creates, create_job-Creates,
}
use distributed_asynchronous.Api.Jobs.Handlers.{delete_job}
use distributed_asynchronous.Api.Jobs.Handlers.Delete.{Deletes, delete_job-Deletes}
use distributed_asynchronous.Api.Jobs.Acyclic.{create_job-IsRanked}
use distributed_asynchronous.Api.Trigger.{get_job, trigger_job}
use distributed_asynchronous.Api.Trigger.Stack.{IsRanked}
use distributed_asynchronous.Api.Trigger.Answer.{
  Triggered, Answers, trigger_job-Answers, trigger_job-acyclic,
}
use distributed_asynchronous.Samples.{job, one_run}

abbrev given : Database
given = one_run succeeded

given-IsValid : IsValid given
given-IsValid = ground arith

trigger_job_example : Answers 2 7 given (trigger_job 2 7 9 given).answer (trigger_job 2 7 9 given)
trigger_job_example = trigger_job-Answers 2 7 9 given given-IsValid

-- Each job needs jobs with smaller ids only.
given-IsRanked : IsRanked given (λ i. i)
unfolding dependency_ids select
given-IsRanked a b h = ground arith

given_owned : get_job 2 7 given ≡ some (job 2)
unfolding get_job first
given_owned = refl

trigger_job-acyclic_example :
    (run : JobRun) × ((trigger_job 2 7 9 given).answer ≡ ok run)
    × Triggered 2 given run (trigger_job 2 7 9 given)
trigger_job-acyclic_example =
    trigger_job-acyclic (λ i. i) 2 7 9 given (job 2) given-IsValid given-IsRanked given_owned

retry_run_example : Retries 1 7 given (retry_run 1 7 9 given).answer (retry_run 1 7 9 given)
retry_run_example = retry_run-Retries 1 7 9 given given-IsValid

-- While the request is answered, the run succeeds.
abbrev succeeds : Database → Database
succeeds = finish_run 1 succeeded none none none 8

running_now : IsValid (one_run running)
running_now = ground arith

cancel_request_example :
    (let reply = cancel_run 1 7 9 succeeds (one_run running) in
      Cancels 1 7 (one_run running) (succeeds (one_run running)) reply.answer reply)
cancel_request_example =
    cancel_run-Cancels 1 7 9 succeeds (one_run running) running_now
      (finish_run-Progress (one_run running) 1 succeeded none none none 8 (omega arith))

-- A job that needs the two jobs there are.
abbrev report : JobCreate
report = record {
  name = "report";
  description = none;
  category = none;
  task_type = TaskType.shell;
  task_spec = field "command" (text "make") end;
  schedule_type = ScheduleType.interval;
  schedule_expr = some "60";
  timezone = "UTC";
  enabled = true;
  max_retries = 2;
  retry_backoff_sec = 10;
  timeout_sec = 300;
  depends_on = 1 ∷ 2 ∷ 1 ∷ [];
}

given-ValidJobs : ValidJobs given
given-ValidJobs = ground arith

given-ValidDependencies : ValidDependencies given
given-ValidDependencies = ((omega arith, omega arith), tt)

create_job_example : Creates report 7 given (create_job report 7 9 given)
create_job_example = create_job-Creates report 7 9 given given-ValidJobs

report_created :
    create_job report 7 9 given
    ≡ ok (
      new_job report 7 9 given,
      set_dependencies 3 (1 ∷ 2 ∷ 1 ∷ []) (add_job (new_job report 7 9 given) given),
    )
unfolding create_job first validate_dependencies missing select
report_created = refl

create_job-IsRanked_example :
    (above : ℕ → ℕ) × IsRanked
      (set_dependencies 3 (1 ∷ 2 ∷ 1 ∷ []) (add_job (new_job report 7 9 given) given))
      above
create_job-IsRanked_example =
    create_job-IsRanked report 7 9 given (λ i. i) (new_job report 7 9 given)
      (set_dependencies 3 (1 ∷ 2 ∷ 1 ∷ []) (add_job (new_job report 7 9 given) given))
      given-ValidJobs given-ValidDependencies given-IsRanked report_created

delete_job_example : Deletes 1 7 given (delete_job 1 7 given).answer (delete_job 1 7 given).db
delete_job_example = delete_job-Deletes 1 7 given given-IsValid given-ValidJobs
