-- ===== src/Samples/Runs.antt =====
-- The theorems on runs, at a database with one run.
use distributed_asynchronous.Prelude.{
  List, true, ◌*◌, ◌^◌, ◌-◌, min, inl, ◌+◌, ◌≡◌, refl, false, none, some, [], ◌∷◌, arith, All,
}
use distributed_asynchronous.Constants.{RunStatus, queued, running, canceled}
use distributed_asynchronous.Models.{run_by_id}
use distributed_asynchronous.Models.Progress.{IsValid, Progress-refl}
use distributed_asynchronous.Store.Defs.{Claimed, claim_run}
use distributed_asynchronous.Store.Claim.{IsAnswer, claim_run-IsAnswer}
use distributed_asynchronous.Executors.{ExecResult, failure, exec_result, Executor}
use distributed_asynchronous.Runner.Defs.{
  World, logs, elsewhere, Execution, returns, process_run, new_buffer, on_failure, conclude,
}
use distributed_asynchronous.Queue.{zadd}
use distributed_asynchronous.Runner.Progress.{IsFair}
use distributed_asynchronous.Runner.Batches.{
  Batches, Act, writes, flushes, commits, accounted, act_all-accounted,
}
use distributed_asynchronous.Runner.Batches as Batches
use distributed_asynchronous.Runner.Failure.{Retries, on_failure-Retries, conclude_canceled}
use distributed_asynchronous.Runner.Process.{Outcome, process_run-Outcome}
use distributed_asynchronous.Samples.{run, one_run, claimed}

pub one_run-IsValid : IsValid (one_run queued)
one_run-IsValid = ground arith

claim_run-IsAnswer_example :
    IsAnswer 1 "worker-1" false 5
      (one_run queued)
      (claim_run 1 "worker-1" false 5 (one_run queued)).1
      (claim_run 1 "worker-1" false 5 (one_run queued)).0
claim_run-IsAnswer_example =
    claim_run-IsAnswer 1 "worker-1" false 5 (one_run queued) one_run-IsValid

running-IsValid : IsValid (one_run running)
running-IsValid = ground arith

found : (r : RunStatus) → run_by_id 1 (one_run r) ≡ some (run 1 1 r)
unfolding run_by_id
found r = refl

-- The first attempt writes a line and fails while another process cancels nothing.
abbrev pub shell_fails : Executor → Claimed → Execution
shell_fails e c = record {
  events = logs "stdout" "starting" ∷ elsewhere (λ w. w) ∷ [];
  exit = returns (failure "exit code 1" none none);
}

pub shell_fails-IsFair : (e : Executor) (c : Claimed) → All IsFair (shell_fails e c).events
shell_fails-IsFair e c = (tt, ((λ w v. Progress-refl w.db), tt))

abbrev pub world : RunStatus → World
world status = record { db = one_run status; commands = []; clock = 9 }

process_run_example :
    Outcome 1 (one_run queued) (process_run 600 shell_fails 1 false "worker-1" (world queued))
process_run_example =
    process_run-Outcome 600 shell_fails shell_fails-IsFair 1 false "worker-1" (world queued)
      one_run-IsValid

abbrev exit_1 : ExecResult
exit_1 = exec_result (failure "exit code 1" none none)

on_failure-Retries_example :
    Retries 600 claimed exit_1 (world running) (on_failure 600 claimed exit_1 (world running)).db
    × ((on_failure 600 claimed exit_1 (world running)).commands
        ≡ zadd 2 (9 + 1_000_000 * min (10 * 2 ^ (1 - 1)) 600) ∷ [])
unfolding exec_result
on_failure-Retries_example =
    on_failure-Retries 600 claimed exit_1 (world running) (run 1 1 running) running-IsValid
      (found running) refl (inl refl) (omega arith)

canceled-IsValid : IsValid (one_run canceled)
canceled-IsValid = ground arith

conclude_canceled_example :
    ((conclude 600 claimed exit_1 (new_buffer 1) (world canceled)).db.runs ≡ run 1 1 canceled ∷ [])
    × ((conclude 600 claimed exit_1 (new_buffer 1) (world canceled)).commands ≡ [])
conclude_canceled_example =
    conclude_canceled 600 claimed exit_1 (new_buffer 1) (world canceled) (run 1 1 canceled)
      canceled-IsValid (found canceled) refl

-- A line is written and flushed, and its batch is committed.
abbrev batches : Batches
batches = record { run_id = 1; buf = []; taken = []; lost = []; db = one_run running }

abbrev acts : List Act
acts = writes "stdout" "a" ∷ flushes ∷ writes "stderr" "b" ∷ commits 0 9 ∷ []

act_all-accounted_example :
    accounted (λ e. true) (Batches.act_all acts batches) ≡ accounted (λ e. true) batches + 2
act_all-accounted_example = act_all-accounted (λ e. true) acts batches
