-- ===== src/Store/Progress.antt =====
-- The operations of backend/worker/store.py as changes of the runs.
use distributed_asynchronous.Prelude.{
  ℕ, ◌≤◌, ◌≡◌, refl, Bool, Option, some, String, List, [], ◌∷◌, arith, inl, inr, Bool-cases,
  Option-cases, ◌==◌, ◌&&◌, ==_iff, subst,
}
use distributed_asynchronous.Table.{earliest-select, key-by_key}
use distributed_asynchronous.Constants.{RunStatus, pending, queued, dependency, retry, status_eq}
use distributed_asynchronous.Models.{Time, Database, JobRun, run_by_id}
use distributed_asynchronous.Models.Json.{ℤ, Fields}
use distributed_asynchronous.Models.Progress.{
  rank, IsValid, Progress, Progress-of_same, Progress-refl, Progress-of_update,
  add_untimed-Progress,
}
use distributed_asynchronous.Store.Defs.{
  mark_running, claim_run, append_logs, cancel_run, finish_run, create_retry_run, pending_run,
  has_dispatched_run, create_dependency_run, promote,
}

-- The row that `pending_run` finds is pending, and is the row with its id.
pub pending_run_lem :
    (db : Database) (job_id : ℕ) (run : JobRun)
    → IsValid db
    → pending_run job_id db ≡ some run
    → (run.status ≡ pending) × (run.job_id ≡ job_id) × (run_by_id run.id db ≡ some run)
unfolding pending_run run_by_id
pending_run_lem db job_id run v e = ground (
  arith,
  earliest-select (λ (r : JobRun). r.id) (λ r. r.created_at) 0 db.runs db.next_run_id
      (λ r. r.job_id == job_id && status_eq r.status pending) run v e,
)

module _ (db : Database) where
  pub promote-Progress :
      (i : ℕ)
      → ((r : JobRun) → run_by_id i db ≡ some r → r.status ≡ pending)
      → Progress db (promote i db)
  promote-Progress i waits =
      Progress-of_update db (promote i db) (λ r. r.id == i) (λ r. record r { status = queued })
        (λ r. (refl, refl, refl))
        (λ j r e t.
          let same : j ≡ i =
            unfold run_by_id in
            ground (arith, key-by_key (λ (r : JobRun). r.id) j db.runs r e, ==_iff r.id i) in
          ground (arith, waits r (subst (λ k. run_by_id k db ≡ some r) same e)))
        refl refl

  pub pending_run-waits :
      (job_id : ℕ) (run r : JobRun)
      → IsValid db
      → pending_run job_id db ≡ some run
      → run_by_id run.id db ≡ some r
      → r.status ≡ pending
  pending_run-waits job_id run r v found there =
      let (waits, _, here) = pending_run_lem db job_id run v found in ground arith

  claim_run-db :
      (i : ℕ) (w : String) (b : Bool) (now : Time)
      → (claim_run i w b now db).1 ≡ mark_running i w b now db
  unfolding claim_run
  claim_run-db i w b now = ground arith

  pub claim_run-Progress :
      (i : ℕ) (w : String) (b : Bool) (now : Time) → Progress db (claim_run i w b now db).1
  unfolding mark_running
  claim_run-Progress i w b now =
      rw claim_run-db
        (Progress-of_update db _ _ _ (λ r. (refl, refl, refl)) (λ j r e t. ground arith) refl refl)

  pub append_logs-Progress :
      (i : ℕ) (entries : List (String × String)) (now : Time)
      → Progress db (append_logs i entries now db)
  unfolding append_logs
  append_logs-Progress i [] now = Progress-refl db
  append_logs-Progress i (x ∷ xs) now = Progress-of_same db _ refl refl

  pub cancel_run-Progress : (i : ℕ) (now : Time) → Progress db (cancel_run i now db).1
  unfolding cancel_run
  cancel_run-Progress i now =
      Progress-of_update db _ _ _ (λ r. (refl, refl, refl)) (λ j r e t. ground arith) refl refl

  -- `finish_run` is called with a terminal status.
  pub finish_run-Progress :
      (i : ℕ) (status : RunStatus) (code : Option ℤ) (result : Option Fields)
      (error : Option String) (now : Time)
      → 3 ≤ rank status
      → Progress db (finish_run i status code result error now db)
  unfolding finish_run
  finish_run-Progress i status code result error now h =
      Progress-of_update db _ _ _ (λ r. (refl, refl, refl)) (λ j r e t. ground arith) refl refl

  pub create_retry_run-Progress :
      (job_id attempt : ℕ) (now : Time) → Progress db (create_retry_run job_id attempt now db).1
  unfolding create_retry_run
  create_retry_run-Progress job_id attempt now =
      add_untimed-Progress job_id retry queued attempt now db

  pub create_dependency_run-Progress :
      (job_id : ℕ) (now : Time) → IsValid db → Progress db (create_dependency_run job_id now db).1
  unfolding create_dependency_run
  create_dependency_run-Progress job_id now v = elim (Bool-cases (has_dispatched_run job_id db)) [
    | inl e ↦ rw e (Progress-refl db)
    | inr e ↦ rw e (elim (Option-cases (pending_run job_id db)) [
      | inl absent ↦ rw absent (add_untimed-Progress job_id dependency queued 1 now db)
      | inr (run, found) ↦
          rw found (promote-Progress run.id (λ r. pending_run-waits job_id run r v found))
    ])
  ]
