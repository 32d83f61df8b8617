-- ===== src/Samples/Histories.antt =====
-- A history of the whole system from an empty database, and the theorems at it.
use distributed_asynchronous.Prelude.{
  ◌≤◌, ◌≡◌, ◌≢◌, refl, false, true, true, none, some, List, [], ◌∷◌, arith, codes, contains,
}
use distributed_asynchronous.Constants.{pending, queued}
use distributed_asynchronous.Constants.TaskType
use distributed_asynchronous.Constants.ScheduleType
use distributed_asynchronous.Models.{Time, empty, run_by_id, job_by_id, add_run, new_run}
use distributed_asynchronous.Models.Json.{text, field, end}
use distributed_asynchronous.Models.Progress.{IsValid, Progress}
use distributed_asynchronous.Store.Defs.{Claimed}
use distributed_asynchronous.Store.Defs as Store
use distributed_asynchronous.Table.{select, rowcount, update_where, first}
use distributed_asynchronous.Executors.{ok, get_executor}
use distributed_asynchronous.Runner.Defs.{World, process_run, skipped, processed}
use distributed_asynchronous.Api.Jobs.{JobCreate}
use distributed_asynchronous.System.{
  Environment, Transaction, register, create_job, trigger_job, schedule_due_jobs, claim_run,
  finish_run, promote_pending, cancel_run, replay, transact, Undisturbed,
}
use distributed_asynchronous.System.Runs.{replay-Progress}
use distributed_asynchronous.System.Claims.{claims, claims_once}
use distributed_asynchronous.System.Executions.{process_run_once}
use distributed_asynchronous.Scheduler.Tick.{Outcome, is_scheduled, tick, schedule_job, create_tick}
use distributed_asynchronous.Scheduler.Cron.{next_run_time, due_tick}
use distributed_asynchronous.Auth.Crypto.{Crypto}
use distributed_asynchronous.Samples.Schedules.{every_minute, small, delayed}
use distributed_asynchronous.Queue.Promote.{perform_all}
use distributed_asynchronous.System.Recovery.{after_history, queued_recovered}
use distributed_asynchronous.Samples.Runs.{shell_fails, shell_fails-IsFair, world, one_run-IsValid}
use distributed_asynchronous.Samples.{one_run, run}

-- Digests of no bytes.
abbrev no_digest : Crypto
no_digest = record {
  encode = codes;
  hmac_sha256 = λ key message. [];
  pbkdf2_hmac = λ password salt n. [];
  dumps = λ payload. [];
  loads = λ raw. none;
}

abbrev env : Environment
env = record {
  get_next = every_minute;
  cron_is_valid = λ e. true;
  differs = λ a b. true;
  crypto = no_digest;
  settings = record { auth_secret_key = "dev-change-me"; auth_token_expire_minutes = 60 };
  describe_error = λ e. "refused";
}

abbrev backup : JobCreate
backup = record {
  name = "backup";
  description = none;
  category = none;
  task_type = TaskType.shell;
  task_spec = field "command" (text "true") end;
  schedule_type = ScheduleType.interval;
  schedule_expr = some "60";
  timezone = "UTC";
  enabled = true;
  max_retries = 2;
  retry_backoff_sec = 10;
  timeout_sec = 300;
  depends_on = [];
}

-- A user registers, creates a job and triggers it; two workers claim the run, and one finishes it.
abbrev history : List (Transaction × Time)
history =
    (register (record { username = "alice"; password = "password1"; email = none }) (7 ∷ []), 1)
    ∷ (create_job backup 1, 2)
    ∷ (trigger_job 1 1, 3)
    ∷ (claim_run 1 "worker-1" false, 4)
    ∷ (claim_run 1 "worker-2" false, 5)
    ∷ (finish_run 1 (ok none none) none, 6)
    ∷ (schedule_due_jobs, 90_000_000)
    ∷ []

empty-IsValid : IsValid empty
empty-IsValid = omega arith

history-Undisturbed : Undisturbed env history empty
history-Undisturbed = (tt, (tt, (tt, (tt, (tt, (tt, (tt, tt)))))))

replay-Progress_example : Progress empty (replay env history empty)
replay-Progress_example = replay-Progress env history empty empty-IsValid history-Undisturbed

claims_once_example : claims env 1 history empty ≤ 1
claims_once_example = claims_once env 1 history empty empty-IsValid history-Undisturbed

was_processed : (process_run 600 shell_fails 1 false "worker-1" (world queued)).0 ≡ processed
unfolding process_run Store.claim_run rowcount run_by_id update_where job_by_id get_executor
was_processed = refl

was_executed : (process_run 600 shell_fails 1 false "worker-1" (world queued)).0 ≢ skipped
was_executed e = cc was_processed

abbrev after_run : World
after_run = (process_run 600 shell_fails 1 false "worker-1" (world queued)).1

-- The message is delivered once more after the job was scheduled.
abbrev next_world : World
next_world = record after_run {
  db = replay env ((schedule_due_jobs, 90_000_000) ∷ []) after_run.db;
}

process_run_once_example : (process_run 600 shell_fails 1 false "worker-2" next_world).0 ≡ skipped
process_run_once_example =
    process_run_once 600 shell_fails shell_fails-IsFair env 1 false "worker-1" (world queued)
      ((schedule_due_jobs, 90_000_000) ∷ []) 600 shell_fails "worker-2" next_world one_run-IsValid
      was_executed (tt, tt) refl

-- The message of run 1 is lost, while the job of the run is scheduled.
abbrev while_lost : List (Transaction × Time)
while_lost = (schedule_due_jobs, 90_000_000) ∷ []

abbrev next_tick : Outcome
next_tick = after_history env 60 150_000_000 [] while_lost (one_run queued)

nothing_raised : next_tick.raised ≡ none
unfolding tick select transact is_scheduled schedule_job due_tick next_run_time create_tick first
    add_run new_run update_where
nothing_raised = refl

run_waits : run_by_id 1 next_tick.db ≡ run_by_id 1 (one_run queued)
unfolding tick select transact is_scheduled schedule_job due_tick next_run_time create_tick
    run_by_id add_run new_run update_where
run_waits = refl

queued_recovered_example :
    contains (small.stream (perform_all small next_tick.commands delayed)) 1 ≡ true
unfolding run_by_id
queued_recovered_example =
    queued_recovered env 60 150_000_000 [] small delayed while_lost (one_run queued) 1
      (run 1 1 queued) (run 1 1 queued) one_run-IsValid refl (omega arith) nothing_raised run_waits
      refl

-- A promotion that is overtaken by a cancellation: the run was canceled, and is queued again.
abbrev canceled_run : List (Transaction × Time)
canceled_run = (cancel_run 1, 5) ∷ []

was_canceled : Store.is_run_canceled 1 (replay env canceled_run (one_run pending)) ≡ true
unfolding Store.is_run_canceled transact Store.cancel_run update_where first
was_canceled = refl

overtaken :
    Store.is_run_canceled 1
      (replay env ((promote_pending 1, 6) ∷ []) (replay env canceled_run (one_run pending)))
    ≡ false
unfolding Store.is_run_canceled transact Store.cancel_run update_where first
overtaken = refl
