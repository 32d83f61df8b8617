-- ===== src/Runner/Progress.antt =====
-- The parts of backend/worker/runner.py as changes of the runs.
use distributed_asynchronous.Prelude.{
  ℕ, ◌+◌, ◌&&◌, ◌≤◌, ◌<◌, ◌≡◌, Bool, true, false, Option, none, some, String, List, [], ◌∷◌, ◌++◌,
  length, leb, arith, inl, inr, Bool-cases, All, if◌then◌else◌,
}
use distributed_asynchronous.Constants.{RunStatus, succeeded, status_in}
use distributed_asynchronous.Models.Json.{ℤ, Fields}
use distributed_asynchronous.Executors.Retry.{should_retry}
use distributed_asynchronous.Models.{Time, Database}
use distributed_asynchronous.Models.Progress.{
  rank, IsValid, Progress, Progress-refl, Progress-trans,
}
use distributed_asynchronous.Store.Defs.{
  Claimed, is_run_canceled, finish_run, create_retry_run, create_dependency_run, dependents_ready,
}
use distributed_asynchronous.Store.Progress.{
  append_logs-Progress, finish_run-Progress, create_retry_run-Progress,
  create_dependency_run-Progress,
}
use distributed_asynchronous.Store.Finish.{
  IsSettled, Progress-IsSettled, finish_run-IsSettled, is_run_canceled-IsSettled,
}
use distributed_asynchronous.Executors.{
  ExecResult, Ending, ok, failure, timeout, exec_result, has_succeeded,
}
use distributed_asynchronous.Runner.Defs.{
  World, LogBuffer, retryable, flush_every, enqueue_new, flush, write, Event, logs, elsewhere,
  run_events, trigger_dependents, on_success, on_failure, schedule_retry, conclude,
}

-- What the other processes do while an executor runs lets the runs progress.
abbrev pub IsFair : Event → Type 0
IsFair (logs stream line) = Unit
IsFair (elsewhere act) = (w : World) → IsValid w.db → Progress w.db (act w).db

pub flush-Progress : (b : LogBuffer) (w : World) → Progress w.db (flush b w).1.db
unfolding flush
flush-Progress b w = go b.buf
  where
    go : (lines : List (String × String)) → Progress w.db (flush (record b { buf = lines }) w).1.db
    go [] = Progress-refl w.db
    go (l ∷ ls) = append_logs-Progress w.db b.run_id (l ∷ ls) w.clock

pub write-Progress :
    (stream line : String) (b : LogBuffer) (w : World) → Progress w.db (write stream line b w).1.db
unfolding write
write-Progress stream line b w =
    let b' = record b { buf = b.buf ++ (stream, line) ∷ [] } in
    elim (Bool-cases (leb flush_every (length b'.buf))) [
      | inl full ↦ rw full (flush-Progress b' w)
      | inr room ↦ rw room (Progress-refl w.db)
    ]

pub run_events-Progress :
    (events : List Event) (b : LogBuffer) (w : World)
    → All IsFair events
    → IsValid w.db
    → Progress w.db (run_events events b w).1.db
unfolding run_events
run_events-Progress [] b w f v = Progress-refl w.db
run_events-Progress (logs stream line ∷ events) b w f v =
    let p = write-Progress stream line b w in
    Progress-trans v p (run_events-Progress events _ _ f.1 (p.valid v))
run_events-Progress (elsewhere act ∷ events) b w f v =
    let p = f.0 w v in Progress-trans v p (run_events-Progress events _ _ f.1 (p.valid v))

enqueue_new-Progress :
    (o : Option ℕ) (db : Database) (w : World) → Progress db w.db → Progress db (enqueue_new o w).db
enqueue_new-Progress none db w p = p
enqueue_new-Progress (some i) db w p = p

trigger_dependents-Progress :
    (dependents : List ℕ) (w : World)
    → IsValid w.db
    → Progress w.db (trigger_dependents dependents w).db
unfolding trigger_dependents
trigger_dependents-Progress [] w v = Progress-refl w.db
trigger_dependents-Progress (d ∷ ds) w v =
    let (new_id, db') = create_dependency_run d w.clock w.db in
    let w' = enqueue_new new_id (record w { db = db' }) in
    let p =
      enqueue_new-Progress new_id w.db (record w { db = db' })
        (create_dependency_run-Progress w.db d w.clock v) in
    Progress-trans v p (trigger_dependents-Progress ds w' (p.valid v))

pub exec_result-rank : (e : Ending) → 3 ≤ rank (exec_result e).status
unfolding exec_result
exec_result-rank (ok c r) = omega arith
exec_result-rank (failure m c r) = omega arith
exec_result-rank (timeout m c r) = omega arith

-- What a step with the run `i` guarantees: progress, and a final status for the run.
pub record Ends (i : ℕ) (db later : Database) : Type 0 where
  pub progress : Progress db later
  pub settled : IsSettled i later

Ends-then : {i : ℕ} {a b c : Database} → IsValid a → Ends i a b → Progress b c → Ends i a c
Ends-then {i} {a} {b} {c} v e p = record {
  progress = Progress-trans v e.progress p;
  settled = Progress-IsSettled i b c p e.settled;
}

pub Ends-after : {i : ℕ} {a b c : Database} → IsValid a → Progress a b → Ends i b c → Ends i a c
Ends-after v p e = record { progress = Progress-trans v p e.progress; settled = e.settled }

finish_run-Ends :
    (i : ℕ) (status : RunStatus) (code : Option ℤ) (result : Option Fields) (error : Option String)
    (now : Time) (db : Database)
    → 3 ≤ rank status
    → i < db.next_run_id
    → Ends i db (finish_run i status code result error now db)
finish_run-Ends i status code result error now db final used = record {
  progress = finish_run-Progress db i status code result error now final;
  settled = finish_run-IsSettled i status code result error now db final used;
}

module _ (c : Claimed) (w : World) (v : IsValid w.db) (used : c.run_id < w.db.next_run_id) where
  canceled-Ends : is_run_canceled c.run_id w.db ≡ true → Ends c.run_id w.db w.db
  canceled-Ends h = record {
    progress = Progress-refl w.db;
    settled = is_run_canceled-IsSettled c.run_id w.db v h used;
  }

  on_success-Ends : (result : ExecResult) → Ends c.run_id w.db (on_success c result w).db
  unfolding on_success
  on_success-Ends result =
      let db' = finish_run c.run_id succeeded result.exit_code result.result none w.clock w.db in
      let e =
        finish_run-Ends c.run_id succeeded result.exit_code result.result none w.clock w.db
          (omega arith) used in
      elim (Bool-cases (is_run_canceled c.run_id w.db)) [
        | inl stop ↦ rw stop (canceled-Ends stop)
        | inr go ↦ rw go (
            Ends-then v e (
              trigger_dependents-Progress (dependents_ready c.job_id db') (record w { db = db' })
                (e.progress.valid v)))
      ]

  schedule_retry-Ends :
      (cap : ℕ) (result : ExecResult)
      → 3 ≤ rank result.status
      → Ends c.run_id w.db (schedule_retry cap c result w).db
  unfolding schedule_retry
  schedule_retry-Ends cap result final =
      let p = create_retry_run-Progress w.db c.job_id (c.attempt + 1) w.clock in
      Ends-after v p (
        finish_run-Ends c.run_id result.status result.exit_code result.result _ w.clock
          (create_retry_run c.job_id (c.attempt + 1) w.clock w.db).1 final (omega (arith, p.grows)))

  on_failure-Ends :
      (cap : ℕ) (result : ExecResult)
      → 3 ≤ rank result.status
      → Ends c.run_id w.db (on_failure cap c result w).db
  unfolding on_failure
  on_failure-Ends cap result final = elim (Bool-cases (is_run_canceled c.run_id w.db)) [
    | inl stop ↦ rw stop (canceled-Ends stop)
    | inr go ↦
        rw go (on_final (status_in retryable result.status && should_retry c.attempt c.max_retries))
  ]
    where
      on_final :
          (b : Bool)
          → Ends c.run_id w.db
              (if b then schedule_retry cap c result w else record w {
                db =
                    finish_run c.run_id result.status result.exit_code result.result result.error
                      w.clock w.db;
              }).db
      on_final true = schedule_retry-Ends cap result final
      on_final false =
          finish_run-Ends c.run_id result.status result.exit_code result.result result.error w.clock
            w.db final used

pub conclude-Ends :
    (cap : ℕ) (c : Claimed) (e : Ending) (b : LogBuffer) (w : World)
    → IsValid w.db
    → c.run_id < w.db.next_run_id
    → Ends c.run_id w.db (conclude cap c (exec_result e) b w).db
unfolding conclude
conclude-Ends cap c e b w v used =
    let p = flush-Progress b w in
    let w' = (flush b w).1 in
    let used' : c.run_id < w'.db.next_run_id = omega (arith, p.grows) in
    Ends-after v p (elim (Bool-cases (has_succeeded (exec_result e))) [
      | inl good ↦ rw good (on_success-Ends c w' (p.valid v) used' (exec_result e))
      | inr bad ↦
          rw bad (on_failure-Ends c w' (p.valid v) used' cap (exec_result e) (exec_result-rank e))
    ])
