-- ===== src/Runner/Process.antt =====
-- `process_run` of backend/worker/runner.py as a whole.
use distributed_asynchronous.Prelude.{
  ℕ, ◌<◌, ◌≡◌, refl, Bool, Option, none, some, String, [], ◌∷◌, arith, All, joined, subst,
}
use distributed_asynchronous.Models.{Database}
use distributed_asynchronous.Models.Progress.{IsValid, Progress, Progress-trans, run_by_id-lt}
use distributed_asynchronous.Store.Defs.{Claimed, claim_run}
use distributed_asynchronous.Store.Progress.{claim_run-Progress}
use distributed_asynchronous.Store.Claim.{claim_run_running, claim_run-run_id}
use distributed_asynchronous.Executors.{failure, Executor, get_executor}
use distributed_asynchronous.Runner.Defs.{
  World, LogBuffer, new_buffer, write, run_events, Exit, returns, raises, canceled, Execution,
  after_execution, execution, execute_claimed, process_run, Disposition, processed, skipped,
  interrupted,
}
use distributed_asynchronous.Runner.Progress.{
  IsFair, Ends, Ends-after, conclude-Ends, write-Progress, flush-Progress, run_events-Progress,
}

-- What holds after `process_run`, by the way in which it ended: the runs progressed, and a processed
-- run has a final status.
abbrev pub Outcome : ℕ → Database → Disposition × World → Type 0
Outcome i db (processed, w) = Ends i db w.db
Outcome i db (skipped, w) = Progress db w.db
Outcome i db (interrupted, w) = Progress db w.db

Outcome-after :
    (i : ℕ) {a b : Database} (r : Disposition × World)
    → IsValid a
    → Progress a b
    → Outcome i b r
    → Outcome i a r
Outcome-after i (processed, w) v p o = Ends-after v p o
Outcome-after i (skipped, w) v p o = Progress-trans v p o
Outcome-after i (interrupted, w) v p o = Progress-trans v p o

module _ (cap : ℕ) (executors : Executor → Claimed → Execution) where
  after_execution-Outcome :
      (c : Claimed) (exit : Exit) (b : LogBuffer) (w : World)
      → IsValid w.db
      → c.run_id < w.db.next_run_id
      → Outcome c.run_id w.db (after_execution cap c exit b w)
  unfolding after_execution
  after_execution-Outcome c (returns ending) b w v used = conclude-Ends cap c ending b w v used
  after_execution-Outcome c (raises exc) b w v used =
      let message = joined ("executor crashed: " ∷ exc ∷ []) in
      let (b', w') = write "system" message b w in
      let p = write-Progress "system" message b w in
      let used' : c.run_id < w'.db.next_run_id = omega (arith, p.grows) in
      Ends-after v p (conclude-Ends cap c (failure message none none) b' w' (p.valid v) used')
  after_execution-Outcome c canceled b w v used =
      let (b', w') = write "system" "run canceled; stopping executor" b w in
      let p = write-Progress "system" "run canceled; stopping executor" b w in
      Progress-trans v p (flush-Progress b' w')

  module _ (fair : (e : Executor) (c : Claimed) → All IsFair (executors e c).events) where
    execution-IsFair : (c : Claimed) → All IsFair (execution executors c).events
    execution-IsFair c = go (get_executor c.task_type) refl
      where
        go :
            (o : Option Executor)
            → get_executor c.task_type ≡ o
            → All IsFair (execution executors c).events
        go none e = rw (e, execution) tt
        go (some x) e = rw (e, execution) (fair x c)

    pub execute_claimed-Outcome :
        (c : Claimed) (w : World)
        → IsValid w.db
        → c.run_id < w.db.next_run_id
        → Outcome c.run_id w.db (execute_claimed cap executors c w)
    unfolding execute_claimed
    execute_claimed-Outcome c w v used =
        let run = execution executors c in
        let p = run_events-Progress run.events (new_buffer c.run_id) w (execution-IsFair c) v in
        let (b, w') = run_events run.events (new_buffer c.run_id) w in
        let used' : c.run_id < w'.db.next_run_id = omega (arith, p.grows) in
        Outcome-after c.run_id (after_execution cap c run.exit b w') v p
          (after_execution-Outcome c run.exit b w' (p.valid v) used')

    -- From a database with valid run ids, for executors during which other processes only let the
    -- runs progress: `process_run` lets the runs progress, also if the claim fails or the task is
    -- canceled, and when it has processed the run, the run has a final status unless it was
    -- deleted.
    pub process_run-Outcome :
        (i : ℕ) (b : Bool) (worker_id : String) (w : World)
        → IsValid w.db
        → Outcome i w.db (process_run cap executors i b worker_id w)
    unfolding process_run
    process_run-Outcome i b worker_id w v = go (claim_run i worker_id b w.clock w.db).0 refl
      where
        p : Progress w.db (claim_run i worker_id b w.clock w.db).1
        p = claim_run-Progress w.db i worker_id b w.clock

        w' : World
        w' = record w { db = (claim_run i worker_id b w.clock w.db).1 }

        go :
            (o : Option Claimed)
            → (claim_run i worker_id b w.clock w.db).0 ≡ o
            → Outcome i w.db (process_run cap executors i b worker_id w)
        go none e = rw (e, process_run) p
        go (some c) e =
            let (r, found, _, _, _, _) = claim_run_running i worker_id b w.clock w.db c v e in
            let same : c.run_id ≡ i = claim_run-run_id i worker_id b w.clock w.db c v e in
            let used : c.run_id < w'.db.next_run_id =
              rw same (run_by_id-lt w'.db i r (p.valid v) found) in
            rw (e, process_run)
              (Outcome-after i (execute_claimed cap executors c w') v p (
                subst (λ k. Outcome k w'.db (execute_claimed cap executors c w')) same
                  (execute_claimed-Outcome c w' (p.valid v) used)))
