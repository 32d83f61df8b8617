-- ===== src/Runner/Defs.antt =====
-- backend/worker/runner.py, function by function. The metrics and the worker's own log are left
-- out; the claims, the log lines, the final status, the retry and the dependents are here. The
-- lines are written one after the other here; Runner/Batches has the calls that overlap in `flush`.
use distributed_asynchronous.Prelude.{
  ℕ, ◌+◌, Bool, ◌&&◌, String, Option, none, some, List, [], ◌∷◌, ◌++◌, leb, if◌then◌else◌, length,
  joined, show,
}
use distributed_asynchronous.Constants.{RunStatus, succeeded, failed, timed_out, status_in}
use distributed_asynchronous.Models.{Time, seconds, Database}
use distributed_asynchronous.Store.Defs.{
  Claimed, claim_run, append_logs, is_run_canceled, finish_run, create_retry_run, dependents_ready,
  create_dependency_run,
}
use distributed_asynchronous.Executors.{
  ExecResult, Ending, failure, exec_result, has_succeeded, Executor, get_executor,
}
use distributed_asynchronous.Executors.Retry.{should_retry, backoff_seconds}
use distributed_asynchronous.Queue.{Command, enqueue_run, schedule_delayed}

-- What the processes share: the database, the Redis commands sent so far, and the clock.
pub record World : Type 0 where
  pub db : Database
  pub commands : List Command
  pub clock : Time

abbrev pub send : List Command → World → World
send cs w = record w { commands = w.commands ++ cs }

-- _FLUSH_EVERY
abbrev pub flush_every : ℕ
flush_every = 25

-- _RETRYABLE
abbrev pub retryable : List RunStatus
retryable = failed ∷ timed_out ∷ []

pub record LogBuffer : Type 0 where
  pub run_id : ℕ
  pub buf : List (String × String)

abbrev pub new_buffer : ℕ → LogBuffer
new_buffer run_id = record { run_id = run_id; buf = [] }

-- LogBuffer.flush: `append_logs` returns at once for an empty batch.
unfoldable pub flush : LogBuffer → World → LogBuffer × World
flush b w = elim b.buf [
  | [] ↦ (b, w)
  | line ∷ lines ↦
      (record b { buf = [] }, record w { db = append_logs b.run_id b.buf w.clock w.db })
]

-- LogBuffer.write
unfoldable pub write : String → String → LogBuffer → World → LogBuffer × World
unfolding flush
write stream line b w =
    let b' = record b { buf = b.buf ++ (stream, line) ∷ [] } in
    if leb flush_every (length b'.buf) then flush b' w else (b', w)

-- What happens while an executor runs: it writes a log line, or another process does something.
pub data Event : Type 0 where
  logs : (stream line : String) → Event
  elsewhere : (World → World) → Event

unfoldable pub run_events : List Event → LogBuffer → World → LogBuffer × World
unfolding write
run_events [] b w = (b, w)
run_events (logs stream line ∷ events) b w =
    let (b', w') = write stream line b w in run_events events b' w'
run_events (elsewhere act ∷ events) b w = run_events events b (act w)

-- How an executor ends: with a result, with an exception, or with the task's cancellation.
pub data Exit : Type 0 where
  returns : Ending → Exit
  raises : String → Exit
  canceled : Exit

pub record Execution : Type 0 where
  pub events : List Event
  pub exit : Exit

-- `if new_id is not None: await enqueue_run_async(...)`
abbrev pub enqueue_new : Option ℕ → World → World
enqueue_new none w = w
enqueue_new (some run_id) w = send (enqueue_run run_id) w

-- The loop over the dependents.
unfoldable pub trigger_dependents : List ℕ → World → World
trigger_dependents [] w = w
trigger_dependents (job_id ∷ dependents) w =
    let (new_id, db') = create_dependency_run job_id w.clock w.db in
    trigger_dependents dependents (enqueue_new new_id (record w { db = db' }))

unfoldable pub on_success : Claimed → ExecResult → World → World
unfolding trigger_dependents
on_success claimed result w =
    let db' =
      finish_run claimed.run_id succeeded result.exit_code result.result none w.clock w.db in
    if is_run_canceled claimed.run_id w.db
    then w
    else trigger_dependents (dependents_ready claimed.job_id db') (record w { db = db' })

abbrev text_of : Option String → String
text_of none = "None"
text_of (some s) = s

abbrev pub retry_error : Claimed → ExecResult → ℕ → ℕ → String
retry_error claimed result delay new_id = joined (
    text_of result.error
    ∷ " (retry "
    ∷ show (claimed.attempt + 1)
    ∷ "/"
    ∷ show claimed.max_retries
    ∷ " scheduled in "
    ∷ show delay
    ∷ "s as run "
    ∷ show new_id
    ∷ ")"
    ∷ [])

-- The branch that schedules a retry. `cap` is `retry_backoff_max_sec`.
unfoldable pub schedule_retry : ℕ → Claimed → ExecResult → World → World
schedule_retry cap claimed result w =
    let delay = backoff_seconds cap claimed.attempt claimed.retry_backoff_sec in
    let (new_id, db') = create_retry_run claimed.job_id (claimed.attempt + 1) w.clock w.db in
    let w' = send (schedule_delayed new_id (w.clock + seconds delay)) (record w { db = db' }) in
    record w' {
      db =
          finish_run claimed.run_id result.status result.exit_code result.result
            (some (retry_error claimed result delay new_id)) w'.clock w'.db;
    }

unfoldable pub on_failure : ℕ → Claimed → ExecResult → World → World
unfolding schedule_retry
on_failure cap claimed result w =
    if is_run_canceled claimed.run_id w.db
    then w
    else if status_in retryable result.status && should_retry claimed.attempt claimed.max_retries
    then schedule_retry cap claimed result w
    else record w {
      db =
          finish_run claimed.run_id result.status result.exit_code result.result result.error
            w.clock w.db;
    }

-- The end of `process_run`, once there is a result.
unfoldable pub conclude : ℕ → Claimed → ExecResult → LogBuffer → World → World
unfolding on_success on_failure has_succeeded
conclude cap claimed result b w =
    let w' = (flush b w).1 in
    if has_succeeded result then on_success claimed result w' else on_failure cap claimed result w'

abbrev unregistered : String → Execution
unregistered task_type = record {
  events = [];
  exit = raises (joined ("no executor registered for task_type '" ∷ task_type ∷ "'" ∷ []));
}

-- What happens between the claim and the result; an unknown task type raises at once.
abbrev pub execution : (Executor → Claimed → Execution) → Claimed → Execution
execution executors claimed = elim (get_executor claimed.task_type) [
  | none ↦ unregistered claimed.task_type
  | some executor ↦ executors executor claimed
]

-- How `process_run` ends: nothing was claimed, the run was processed, or the task was canceled.
pub data Disposition : Type 0 where
  skipped processed interrupted : Disposition

-- The handlers of the `try` statement.
unfoldable pub after_execution : ℕ → Claimed → Exit → LogBuffer → World → Disposition × World
unfolding conclude
after_execution cap claimed (returns ending) b w =
    (processed, conclude cap claimed (exec_result ending) b w)
after_execution cap claimed (raises exc) b w =
    let message = joined ("executor crashed: " ∷ exc ∷ []) in
    let (b', w') = write "system" message b w in
    (processed, conclude cap claimed (exec_result (failure message none none)) b' w')
after_execution cap claimed canceled b w =
    let (b', w') = write "system" "run canceled; stopping executor" b w in
    (interrupted, (flush b' w').1)

unfoldable pub execute_claimed :
    ℕ → (Executor → Claimed → Execution) → Claimed → World → Disposition × World
unfolding after_execution run_events
execute_claimed cap executors claimed w =
    let run = execution executors claimed in
    let (b, w') = run_events run.events (new_buffer claimed.run_id) w in
    after_execution cap claimed run.exit b w'

unfoldable pub process_run :
    ℕ → (Executor → Claimed → Execution) → ℕ → Bool → String → World → Disposition × World
unfolding execute_claimed
process_run cap executors run_id allow_running worker_id w =
    let (claimed, db') = claim_run run_id worker_id allow_running w.clock w.db in
    let w' = record w { db = db' } in
    elim claimed [ none ↦ (skipped, w') | some c ↦ execute_claimed cap executors c w' ]
