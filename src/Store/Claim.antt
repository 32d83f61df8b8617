-- ===== src/Store/Claim.antt =====
-- The claim of backend/worker/store.py: who gets a run, and when.
use distributed_asynchronous.Prelude.{
  ℕ, ◌≡◌, ◌⊎◌, Bool-cases, refl, Bool, true, false, ◌&&◌, Option, none, some, String, arith, inl,
  inr, Option-cases, ◌==◌, if◌then◌else◌,
}
use distributed_asynchronous.Table.{by_key-update_where, rowcount-by_key, key-by_key}
use distributed_asynchronous.Constants.{RunStatus, pending, queued, running, status_in}
use distributed_asynchronous.Models.{Time, Database, Job, JobRun, run_by_id, job_by_id}
use distributed_asynchronous.Models.Progress.{IsValid, Progress}
use distributed_asynchronous.Store.Progress.{claim_run-Progress}
use distributed_asynchronous.Store.Defs.{Claimed, allowed, describe, claim_run}

-- What a claim returns, by the run with that id.
abbrev pub claim_of : Bool → Option JobRun → Database → Option Claimed
claim_of b none db = none
claim_of b (some run) db =
    if status_in (allowed b) run.status then describe (some run) (job_by_id run.job_id db) else none

-- The run as a successful claim leaves it.
abbrev pub marked : String → Time → JobRun → JobRun
marked w now run = record run { status = running; started_at = some now; worker_id = some w }

module _ (i : ℕ) (w : String) (b : Bool) (now : Time) (db : Database) where
  -- A claim marks the run with that id as running if its status is allowed, and leaves every other
  -- run as it was.
  pub run_by_id-claim_run :
      (j : ℕ)
      → run_by_id j (claim_run i w b now db).1 ≡ (elim (run_by_id j db) [
        | none ↦ none
        | some r ↦ some (if r.id == i && status_in (allowed b) r.status then marked w now r else r)
      ])
  unfolding claim_run run_by_id
  run_by_id-claim_run j = ground (
    arith,
    by_key-update_where (λ (r : JobRun). r.id) (λ r. r.id == i && status_in (allowed b) r.status)
        (marked w now) j db.runs (λ r. refl),
  )

  -- In a database with valid run ids: a claim returns the columns of the run and of its job if the
  -- run is there, its status is allowed and its job exists, and nothing otherwise.
  pub claim_run-claim_of : IsValid db → (claim_run i w b now db).0 ≡ claim_of b (run_by_id i db) db
  unfolding claim_run run_by_id job_by_id
  claim_run-claim_of v = ground (
    arith,
    rowcount-by_key (λ (r : JobRun). r.id) 0 db.runs db.next_run_id i
        (λ r. status_in (allowed b) r.status) v,
    by_key-update_where (λ (r : JobRun). r.id) (λ r. r.id == i && status_in (allowed b) r.status)
        (marked w now) i db.runs (λ r. refl),
  )

  -- The run that a successful claim returns is running, and carries the worker's id.
  pub claim_run_running :
      (c : Claimed)
      → IsValid db
      → (claim_run i w b now db).0 ≡ some c
      → (r : JobRun) × (run_by_id i (claim_run i w b now db).1 ≡ some r)
        × (r.status ≡ running)
        × (r.worker_id ≡ some w)
        × (r.job_id ≡ c.job_id)
        × (r.attempt ≡ c.attempt)
  claim_run_running c v e = elim (Option-cases (run_by_id i db)) [
    | inl absent ↦ ground (arith, claim_run-claim_of v)
    | inr (r, found) ↦ (
      marked w now r,
      ground (arith, claim_run-claim_of v, run_by_id-claim_run i, found_id r found),
      refl,
      refl,
      ground (arith, claim_run-claim_of v),
      ground (arith, claim_run-claim_of v),
    )
  ]
    where
      found_id : (r : JobRun) → run_by_id i db ≡ some r → (r.id == i) ≡ true
      found_id r found =
          unfold run_by_id in ground (arith, key-by_key (λ (x : JobRun). x.id) i db.runs r)

-- The statuses that a claim takes: pending and queued, and running for a reclaimed message.
abbrev pub CanClaim : (allow_running : Bool) → RunStatus → Type 0
CanClaim allow_running s = (s ≡ pending) ⊎ (s ≡ queued) ⊎ ((s ≡ running) × (allow_running ≡ true))

-- What is returned, column by column.
pub record IsClaim (c : Claimed) (run : JobRun) (job : Job) : Type 0 where
  pub run_id : c.run_id ≡ run.id
  pub job_id : c.job_id ≡ run.job_id
  pub attempt : c.attempt ≡ run.attempt
  pub task_type : c.task_type ≡ job.task_type
  pub task_spec : c.task_spec ≡ job.task_spec
  pub timeout_sec : c.timeout_sec ≡ job.timeout_sec
  pub max_retries : c.max_retries ≡ job.max_retries
  pub retry_backoff_sec : c.retry_backoff_sec ≡ job.retry_backoff_sec
  pub job_name : c.job_name ≡ job.name

-- A claim that returns something had a run to take, and marked it as running; one that returns nothing
-- had not, or the run's job is gone.
abbrev pub IsAnswer : ℕ → String → Bool → Time → (db later : Database) → Option Claimed → Type 0
IsAnswer i w b now db later (some c) =
    (run : JobRun) × (job : Job) × (run_by_id i db ≡ some run)
    × CanClaim b run.status
    × (job_by_id run.job_id db ≡ some job)
    × IsClaim c run job
    × (run_by_id i later
        ≡ some (record run { status = running; started_at = some now; worker_id = some w }))
IsAnswer i w b now db later none =
    (run_by_id i db ≡ none)
    ⊎ ((run : JobRun) × (run_by_id i db ≡ some run)
        × ((CanClaim b run.status → ⊥) ⊎ (job_by_id run.job_id db ≡ none)))

CanClaim-allowed : (b : Bool) (s : RunStatus) → status_in (allowed b) s ≡ true → CanClaim b s
CanClaim-allowed true s h = ground arith
CanClaim-allowed false s h = ground arith

not_allowed : (b : Bool) (s : RunStatus) → status_in (allowed b) s ≡ false → CanClaim b s → ⊥
not_allowed true s h can = ground arith
not_allowed false s h can = ground arith

-- In a database with valid run ids: a claim that returns something was of a run that was pending or
-- queued, or running where that is allowed, and whose job exists; it returns their columns and
-- leaves the run running, with its start and its worker. It returns nothing only where there is no
-- such run, its status is another one, or its job is gone.
pub claim_run-IsAnswer :
    (i : ℕ) (w : String) (b : Bool) (now : Time) (db : Database)
    → IsValid db
    → IsAnswer i w b now db (claim_run i w b now db).1 (claim_run i w b now db).0
claim_run-IsAnswer i w b now db v = elim (Option-cases (run_by_id i db)) [
  | inl absent ↦ rw (claim_run-claim_of i w b now db v, absent) (inl absent)
  | inr (r, found) ↦ elim (Bool-cases (status_in (allowed b) r.status)) [
    | inr other ↦
        rw (claim_run-claim_of i w b now db v, found, other)
          (inr (r, found, inl (not_allowed b r.status other)))
    | inl can ↦ elim (Option-cases (job_by_id r.job_id db)) [
      | inl gone ↦
          rw (claim_run-claim_of i w b now db v, found, can, gone) (inr (r, found, inr gone))
      | inr (job, here) ↦
          let same : r.id ≡ i =
            unfold run_by_id in key-by_key (λ (x : JobRun). x.id) i db.runs r found in
          let after = run_by_id-claim_run i w b now db i in
          rw (claim_run-claim_of i w b now db v, found, can, here)
            (
              r,
              job,
              found,
              CanClaim-allowed b r.status can,
              here,
              record {
                run_id = refl;
                job_id = refl;
                attempt = refl;
                task_type = refl;
                task_spec = refl;
                timeout_sec = refl;
                max_retries = refl;
                retry_backoff_sec = refl;
                job_name = refl;
              },
              ground (arith, after, found, can, same),
            )
    ]
  ]
]

-- A claim returns the run that it was asked for.
pub claim_run-run_id :
    (i : ℕ) (w : String) (b : Bool) (now : Time) (db : Database) (c : Claimed)
    → IsValid db
    → (claim_run i w b now db).0 ≡ some c
    → c.run_id ≡ i
claim_run-run_id i w b now db c v e = elim (Option-cases (run_by_id i db)) [
  | inl absent ↦ ground (arith, claim_run-claim_of i w b now db v)
  | inr (r, found) ↦
      unfold run_by_id in
      ground (
        arith,
        claim_run-claim_of i w b now db v,
        key-by_key (λ (x : JobRun). x.id) i db.runs r found,
      )
]

-- In a database with valid run ids: after a claim that returned a run, an ordinary delivery of the
-- run's message (without allow_running) claims nothing, in any later database that the runs
-- progressed to.
pub claim_once :
    (i : ℕ) (w w' : String) (b : Bool) (now now' : Time) (db later : Database) (c : Claimed)
    → IsValid db
    → (claim_run i w b now db).0 ≡ some c
    → Progress (claim_run i w b now db).1 later
    → (claim_run i w' false now' later).0 ≡ none
claim_once i w w' b now now' db later c v e p =
    let (r, found, is_running, _, _, _) = claim_run_running i w b now db c v e in
    let valid = p.valid ((claim_run-Progress db i w b now).valid v) in
    elim (Option-cases (run_by_id i later)) [
      | inl absent ↦ ground (arith, claim_run-claim_of i w' false now' later valid)
      | inr (s, found') ↦
          ground (arith, claim_run-claim_of i w' false now' later valid, p.kept i r s found found')
    ]
