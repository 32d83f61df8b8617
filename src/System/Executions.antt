-- ===== src/System/Executions.antt =====
-- The executions of a run by process_run of backend/worker/runner.py, among the transactions of all
-- processes.
use distributed_asynchronous.Prelude.{
  ℕ, ◌≡◌, ◌≢◌, refl, sym, subst, Bool, true, false, Option, none, some, String, List, All, is_some,
}
use distributed_asynchronous.Models.{Time, Database}
use distributed_asynchronous.Models.Progress.{IsValid, Progress, run_by_id-lt}
use distributed_asynchronous.Store.Defs.{Claimed}
use distributed_asynchronous.Store.Defs as Store
use distributed_asynchronous.Executors.{Executor}
use distributed_asynchronous.Runner.Defs.{
  World, Execution, Disposition, processed, interrupted, process_run, skipped, execute_claimed,
}
use distributed_asynchronous.System.{Environment, Transaction, replay, Undisturbed}
use distributed_asynchronous.System.Runs.{replay-Progress}
use distributed_asynchronous.System.Claims.{
  IsStarted, IsStarted-Progress, started_untaken, claimed_IsStarted,
}
use distributed_asynchronous.Runner.Progress.{IsFair}
use distributed_asynchronous.Runner.Process.{Outcome, execute_claimed-Outcome}
use distributed_asynchronous.Store.Progress.{claim_run-Progress}
use distributed_asynchronous.Store.Claim.{claim_run_running, claim_run-run_id}

unclaimed_skipped :
    (cap : ℕ) (executors : Executor → Claimed → Execution) (i : ℕ) (b : Bool) (worker_id : String)
    (w : World)
    → (Store.claim_run i worker_id b w.clock w.db).0 ≡ none
    → (process_run cap executors i b worker_id w).0 ≡ skipped
unfolding process_run
unclaimed_skipped cap executors i b worker_id w e = rw (e, process_run) refl

none_of : {A : Type 0} (o : Option A) → is_some o ≡ false → o ≡ none
none_of none h = refl
none_of (some a) h = cc

Outcome-Progress :
    (i : ℕ) (db : Database) (r : Disposition × World) → Outcome i db r → Progress db r.1.db
Outcome-Progress i db (processed, w) o = o.progress
Outcome-Progress i db (skipped, w) o = o
Outcome-Progress i db (interrupted, w) o = o

module _ (cap : ℕ) (executors : Executor → Claimed → Execution)
    (fair : (e : Executor) (c : Claimed) → All IsFair (executors e c).events) where
  -- From the claim on, whatever comes of the run, the runs progress.
  executed-Progress :
      (i : ℕ) (b : Bool) (worker_id : String) (w : World)
      → IsValid w.db
      → (process_run cap executors i b worker_id w).0 ≢ skipped
      → (is_some (Store.claim_run i worker_id b w.clock w.db).0 ≡ true)
        × Progress
            (Store.claim_run i worker_id b w.clock w.db).1
            (process_run cap executors i b worker_id w).1.db
  unfolding process_run
  executed-Progress i b worker_id w v executed =
      go (Store.claim_run i worker_id b w.clock w.db).0 refl
    where
      w' : World
      w' = record w { db = (Store.claim_run i worker_id b w.clock w.db).1 }

      valid : IsValid w'.db
      valid = (claim_run-Progress w.db i worker_id b w.clock).valid v

      go :
          (o : Option Claimed)
          → (Store.claim_run i worker_id b w.clock w.db).0 ≡ o
          → (is_some (Store.claim_run i worker_id b w.clock w.db).0 ≡ true)
            × Progress w'.db (process_run cap executors i b worker_id w).1.db
      go none e = absurd (executed (unclaimed_skipped cap executors i b worker_id w e))
      go (some c) e =
          let (r, found, _, _, _, _) = claim_run_running i worker_id b w.clock w.db c v e in
          let same : c.run_id ≡ i = claim_run-run_id i worker_id b w.clock w.db c v e in
          rw (e, process_run)
            (
              refl,
              Outcome-Progress c.run_id w'.db (execute_claimed cap executors c w') (
                  execute_claimed-Outcome cap executors fair c w' valid
                    (rw same (run_by_id-lt w'.db i r valid found))),
            )

  -- No double execution: from a database with valid run ids, for executors during which other
  -- processes only let the runs progress, once a call of `process_run` has executed a run, every
  -- later call for the run that is an ordinary delivery (without allow_running) skips it, by
  -- whatever worker, and whatever transactions the processes commit in between, where each
  -- promotion of a pending run by create_dependency_run finds the run still pending.
  pub process_run_once :
      (env : Environment) (i : ℕ) (b : Bool) (worker_id : String) (w : World)
      (h : List (Transaction × Time)) (cap' : ℕ) (executors' : Executor → Claimed → Execution)
      (worker' : String) (later : World)
      → IsValid w.db
      → (process_run cap executors i b worker_id w).0 ≢ skipped
      → Undisturbed env h (process_run cap executors i b worker_id w).1.db
      → later.db ≡ replay env h (process_run cap executors i b worker_id w).1.db
      → (process_run cap' executors' i false worker' later).0 ≡ skipped
  process_run_once env i b worker_id w h cap' executors' worker' later v executed u e =
      let db' = (process_run cap executors i b worker_id w).1.db in
      let at_claim = (Store.claim_run i worker_id b w.clock w.db).1 in
      let (got, q) = executed-Progress i b worker_id w v executed in
      let claimed : IsValid at_claim = (claim_run-Progress w.db i worker_id b w.clock).valid v in
      let valid = q.valid claimed in
      let p = replay-Progress env h db' valid u in
      let started = IsStarted-Progress i db' (replay env h db') p (
        IsStarted-Progress i at_claim db' q
          (claimed_IsStarted i worker_id b w.clock w.db v claimed got)) in
      unclaimed_skipped cap' executors' i false worker' later (
        none_of (Store.claim_run i worker' false later.clock later.db).0 (
          started_untaken i worker' later.clock later.db (subst IsValid (sym e) (p.valid valid))
            (subst (IsStarted i) (sym e) started)))
