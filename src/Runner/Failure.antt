-- ===== src/Runner/Failure.antt =====
-- What backend/worker/runner.py does after a failure, and after a cancellation.
use distributed_asynchronous.Prelude.{
  ℕ, zero, suc, ◌+◌, ◌-◌, ◌*◌, ◌^◌, min, ◌&&◌, not, ◌≤◌, ◌<◌, ◌≡◌, ◌⊎◌, refl, ap, true, false, none,
  some, [], ◌∷◌, ◌++◌, arith, leb, inl, inr, Option-cases, ◌==◌, ==_iff, String, if◌then◌else◌,
}
use distributed_asynchronous.Table.{by_key-append, by_key_absent, key-by_key}
use distributed_asynchronous.Constants.{
  queued, running, failed, timed_out, retry, canceled as canceled_status, status_eq, status_in,
}
use distributed_asynchronous.Models.{Database, JobRun, seconds, run_by_id, new_run, add_run}
use distributed_asynchronous.Models.Progress.{IsValid, run_by_id-lt}
use distributed_asynchronous.Store.Defs.{
  Claimed, is_run_canceled, append_logs, finish_run, create_retry_run,
}
use distributed_asynchronous.Store.Finish.{is_run_canceled_lem, finished, run_by_id-finish_run}
use distributed_asynchronous.Executors.{ExecResult}
use distributed_asynchronous.Executors.Retry.{should_retry, backoff_seconds}
use distributed_asynchronous.Queue.{zadd, schedule_delayed}
use distributed_asynchronous.Runner.Defs.{
  World, LogBuffer, retryable, on_failure, on_success, schedule_retry, conclude, flush, retry_error,
}

-- A new run is found under the id that it took.
pub run_by_id-add_run :
    (db : Database) (run : JobRun)
    → IsValid db
    → run.id ≡ db.next_run_id
    → run_by_id db.next_run_id (add_run run db) ≡ some run
unfolding run_by_id add_run
run_by_id-add_run db run v e = ground (
  arith,
  by_key-append (λ (r : JobRun). r.id) db.next_run_id db.runs run,
  by_key_absent (λ (r : JobRun). r.id) 0 db.runs db.next_run_id db.next_run_id v,
)

-- The retry: one more run of the same job, queued, with the next attempt number.
pub record IsRetry (c : Claimed) (run : JobRun) : Type 0 where
  pub job_id : run.job_id ≡ c.job_id
  pub trigger_type : run.trigger_type ≡ retry
  pub status : run.status ≡ queued
  pub attempt : run.attempt ≡ c.attempt + 1

backoff_min :
    (base k cap : ℕ)
    → seconds (if leb base 0 then 0 else min (base * 2 ^ k) cap)
      ≡ 1_000_000 * min (base * 2 ^ k) cap
backoff_min zero k cap = ground arith
backoff_min (suc base) k cap = ground arith

module _ (cap : ℕ) (c : Claimed) (result : ExecResult) (w : World) where
  schedule_retry-run :
      IsValid w.db
      → c.run_id < w.db.next_run_id
      → (run : JobRun) × (run_by_id w.db.next_run_id (schedule_retry cap c result w).db ≡ some run)
        × IsRetry c run
  unfolding schedule_retry create_retry_run new_run
  schedule_retry-run v used = (
    run,
    ground (
      arith,
      run_by_id-add_run w.db run v refl,
      run_by_id-finish_run c.run_id result.status result.exit_code result.result
          (some (
            retry_error c result (backoff_seconds cap c.attempt c.retry_backoff_sec)
              w.db.next_run_id))
          w.clock (add_run run w.db) w.db.next_run_id,
    ),
    record { job_id = refl; trigger_type = refl; status = refl; attempt = refl },
  )
    where
      run : JobRun
      run = new_run c.job_id retry queued (c.attempt + 1) none w.clock w.db

  -- What a retry leaves: one new run, the failed run ended with the result, and every other run as it was.
  pub record Retries (db : Database) : Type 0 where
    pub one : db.next_run_id ≡ w.db.next_run_id + 1
    pub retry : (run : JobRun) × (run_by_id w.db.next_run_id db ≡ some run) × IsRetry c run
    pub ended :
        (run : JobRun) × (run_by_id c.run_id db ≡ some run)
        × (run.status ≡ result.status)
        × (run.exit_code ≡ result.exit_code)
        × (run.finished_at ≡ some w.clock)
    pub others :
        (j : ℕ)
        → (j == c.run_id) ≡ false
        → (j == w.db.next_run_id) ≡ false
        → run_by_id j db ≡ run_by_id j w.db

  run_by_id-schedule_retry :
      (j : ℕ)
      → (error : String) × (run_by_id j (schedule_retry cap c result w).db
          ≡ (elim (run_by_id j
              (add_run (new_run c.job_id retry queued (c.attempt + 1) none w.clock w.db) w.db)) [
                | none ↦ none
                | some r ↦ some (
                    if r.id == c.run_id && not (status_eq r.status canceled_status)
                    then finished result.status result.exit_code result.result
                        (some error)
                        w.clock
                        r
                    else r)
              ]))
  unfolding schedule_retry create_retry_run new_run
  run_by_id-schedule_retry j = (
    retry_error c result (backoff_seconds cap c.attempt c.retry_backoff_sec) w.db.next_run_id,
    run_by_id-finish_run c.run_id result.status result.exit_code result.result
        (some (
          retry_error c result (backoff_seconds cap c.attempt c.retry_backoff_sec)
            w.db.next_run_id))
        w.clock (add_run (new_run c.job_id retry queued (c.attempt + 1) none w.clock w.db) w.db) j,
  )

  run_by_id-added :
      (j : ℕ)
      → (j == w.db.next_run_id) ≡ false
      → run_by_id j (add_run (new_run c.job_id retry queued (c.attempt + 1) none w.clock w.db) w.db)
        ≡ run_by_id j w.db
  unfolding run_by_id add_run new_run
  run_by_id-added j other = ground (
    arith,
    by_key-append (λ (r : JobRun). r.id) j w.db.runs
        (new_run c.job_id retry queued (c.attempt + 1) none w.clock w.db),
  )

  schedule_retry-Retries :
      (r : JobRun)
      → IsValid w.db
      → run_by_id c.run_id w.db ≡ some r
      → r.status ≡ running
      → Retries (schedule_retry cap c result w).db
  schedule_retry-Retries r v found runs =
      let used = run_by_id-lt w.db c.run_id r v found in
      let same : r.id ≡ c.run_id =
        unfold run_by_id in key-by_key (λ (x : JobRun). x.id) c.run_id w.db.runs r found in
      record {
        one = unfold schedule_retry create_retry_run finish_run add_run in refl;
        retry = schedule_retry-run v used;
        ended =
            let (error, h) = run_by_id-schedule_retry c.run_id in
            (
              finished result.status result.exit_code result.result (some error) w.clock r,
              ground (arith, h, run_by_id-added c.run_id (ground arith), ==_iff r.id c.run_id),
              refl,
              refl,
              refl,
            );
        others = λ j other fresh. elim (Option-cases (run_by_id j w.db)) [
          | inl absent ↦
              let (error, h) = run_by_id-schedule_retry j in
              ground (arith, h, run_by_id-added j fresh)
          | inr (x, there) ↦
              let (error, h) = run_by_id-schedule_retry j in
              let id : x.id ≡ j =
                unfold run_by_id in key-by_key (λ (y : JobRun). y.id) j w.db.runs x there in
              ground (arith, h, run_by_id-added j fresh, other, id)
        ];
      }

  -- After a failure or a timeout with attempts left, of a run that is running, in a database with
  -- valid run ids: one run is created, of the same job and queued with the next attempt number; the
  -- failed run ends with the result, and every other run is as it was; and the one command sent
  -- delays the new run by the base delay times 2 to the power of the attempts before, at most the
  -- cap, in seconds.
  pub on_failure-Retries :
      (r : JobRun)
      → IsValid w.db
      → run_by_id c.run_id w.db ≡ some r
      → r.status ≡ running
      → (result.status ≡ failed) ⊎ (result.status ≡ timed_out)
      → c.attempt ≤ c.max_retries
      → Retries (on_failure cap c result w).db
        × ((on_failure cap c result w).commands
            ≡ w.commands
              ++ zadd w.db.next_run_id
                  (w.clock + 1_000_000 * min (c.retry_backoff_sec * 2 ^ (c.attempt - 1)) cap)
                ∷ [])
  unfolding on_failure should_retry
  on_failure-Retries r v found runs kind left =
      let test : (status_in retryable result.status && leb c.attempt c.max_retries) ≡ true =
        ground arith in
      let alive : is_run_canceled c.run_id w.db ≡ false =
        ground (arith, is_run_canceled_lem c.run_id w.db v) in
      let delay = backoff_min c.retry_backoff_sec (c.attempt - 1) cap in
      rw (alive, test)
        (
          schedule_retry-Retries r v found runs,
          unfold schedule_retry create_retry_run schedule_delayed new_run backoff_seconds in
              ap (λ d. w.commands ++ zadd w.db.next_run_id (w.clock + d) ∷ []) delay,
        )

  -- With no attempts left `on_failure` creates no run and sends no command.
  pub on_failure_gives_up :
      c.max_retries < c.attempt
      → ((on_failure cap c result w).db.next_run_id ≡ w.db.next_run_id)
        × ((on_failure cap c result w).commands ≡ w.commands)
  unfolding on_failure should_retry finish_run
  on_failure_gives_up over = ground arith

-- A flush writes log rows and nothing else.
flush_keeps :
    (b : LogBuffer) (w : World)
    → ((flush b w).1.db.runs ≡ w.db.runs)
      × ((flush b w).1.db.next_run_id ≡ w.db.next_run_id)
      × ((flush b w).1.commands ≡ w.commands)
unfolding flush append_logs
flush_keeps b w = ground arith

conclude_stops :
    (cap : ℕ) (c : Claimed) (result : ExecResult) (b : LogBuffer) (w : World)
    → is_run_canceled c.run_id (flush b w).1.db ≡ true
    → conclude cap c result b w ≡ (flush b w).1
unfolding conclude on_success on_failure
conclude_stops cap c result b w h = ground arith

-- In a database with valid run ids, where the run was canceled while its executor ran: whatever the
-- result, the end of `process_run` changes and creates no run and sends no command.
pub conclude_canceled :
    (cap : ℕ) (c : Claimed) (result : ExecResult) (b : LogBuffer) (w : World) (r : JobRun)
    → IsValid w.db
    → run_by_id c.run_id w.db ≡ some r
    → r.status ≡ canceled_status
    → ((conclude cap c result b w).db.runs ≡ w.db.runs)
      × ((conclude cap c result b w).commands ≡ w.commands)
unfolding run_by_id
conclude_canceled cap c result b w r v found e =
    let keeps = flush_keeps b w in
    let w' = (flush b w).1 in
    let valid : IsValid w'.db = rw (keeps.0, keeps.1) v in
    let same : run_by_id c.run_id w'.db ≡ some r = rw keeps.0 found in
    let stop : is_run_canceled c.run_id w'.db ≡ true =
      ground (arith, is_run_canceled_lem c.run_id w'.db valid) in
    rw (conclude_stops cap c result b w stop) (keeps.0, keeps.2)
