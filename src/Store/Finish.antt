-- ===== src/Store/Finish.antt =====
-- The end of a run in backend/worker/store.py: a final status, and cancellation.
use distributed_asynchronous.Prelude.{
  ℕ, ◌≤◌, ◌<◌, ◌≡◌, refl, true, false, not, ◌&&◌, Option, none, some, String, arith, inl, inr,
  Option-cases, ◌==◌, if◌then◌else◌,
}
use distributed_asynchronous.Table.{by_key-update_where, first-by_key, key-by_key, rowcount-by_key}
use distributed_asynchronous.Constants.{RunStatus, canceled, status_eq, status_in}
use distributed_asynchronous.Models.{Time, Database, JobRun, run_by_id}
use distributed_asynchronous.Models.Json.{ℤ, Fields}
use distributed_asynchronous.Models.Progress.{rank, IsValid, Progress}
use distributed_asynchronous.Store.Defs.{active, cancel_run, is_run_canceled, finish_run}

-- The run with that id has its final status, if it has not been deleted.
pub record IsSettled (i : ℕ) (db : Database) : Type 0 where
  pub used : i < db.next_run_id
  pub done : (r : JobRun) → run_by_id i db ≡ some r → 3 ≤ rank r.status

-- Whatever happens, it keeps a final status.
pub Progress-IsSettled :
    (i : ℕ) (db later : Database) → Progress db later → IsSettled i db → IsSettled i later
Progress-IsSettled i db later p h = record {
  used = omega (arith, p.grows, h.used);
  done = λ s e. elim (Option-cases (run_by_id i db)) [
    | inl absent ↦ cc (p.gone i h.used absent)
    | inr (r, found) ↦ omega (arith, h.done r found, (p.kept i r s found e).forward)
  ];
}

-- `is_run_canceled` reads the status of the run with that id.
pub is_run_canceled_lem :
    (i : ℕ) (db : Database)
    → IsValid db
    → is_run_canceled i db
      ≡ (elim (run_by_id i db) [ none ↦ false | some r ↦ status_eq r.status canceled ])
unfolding is_run_canceled run_by_id
is_run_canceled_lem i db v = ground (
  arith,
  first-by_key (λ (r : JobRun). r.id) 0 db.runs db.next_run_id i (λ r. status_eq r.status canceled)
      v,
)

-- The columns that `finish_run` writes.
abbrev pub finished : RunStatus → Option ℤ → Option Fields → Option String → Time → JobRun → JobRun
finished status code result error now r = record r {
  status = status;
  finished_at = some now;
  exit_code = code;
  result = result;
  error = error;
}

module _ (i : ℕ) (status : RunStatus) (code : Option ℤ) (result : Option Fields)
    (error : Option String) (now : Time) (db : Database) where
  abbrev after : Database
  after = finish_run i status code result error now db

  -- `finish_run` writes its columns to the run with that id unless it is canceled, and leaves every
  -- other run as it was.
  pub run_by_id-finish_run :
      (j : ℕ)
      → run_by_id j after ≡ (elim (run_by_id j db) [
        | none ↦ none
        | some r ↦ some (
            if r.id == i && not (status_eq r.status canceled)
            then finished status code result error now r
            else r)
      ])
  unfolding finish_run run_by_id
  run_by_id-finish_run j = ground (
    arith,
    by_key-update_where (λ (r : JobRun). r.id) (λ r. r.id == i && not (status_eq r.status canceled))
        (finished status code result error now) j db.runs (λ r. refl),
  )

  pub finish_run-IsSettled : 3 ≤ rank status → i < db.next_run_id → IsSettled i after
  finish_run-IsSettled h lt = record {
    used = unfold finish_run in lt;
    done = λ s e. elim (Option-cases (run_by_id i db)) [
      | inl absent ↦ ground (arith, run_by_id-finish_run i)
      | inr (r, found) ↦ ground (arith, run_by_id-finish_run i, same_id r found)
    ];
  }
    where
      same_id : (r : JobRun) → run_by_id i db ≡ some r → r.id ≡ i
      same_id r found = unfold run_by_id in key-by_key (λ (x : JobRun). x.id) i db.runs r found

-- A canceled run is settled.
pub is_run_canceled-IsSettled :
    (i : ℕ) (db : Database)
    → IsValid db
    → is_run_canceled i db ≡ true
    → i < db.next_run_id
    → IsSettled i db
is_run_canceled-IsSettled i db v h lt = record {
  used = lt;
  done = λ r e. ground (arith, is_run_canceled_lem i db v);
}

-- The columns that `cancel_run` writes.
abbrev pub canceled_by_user : Time → JobRun → JobRun
canceled_by_user now r = record r {
  status = canceled;
  finished_at = some now;
  error = some "canceled by user";
}

-- In a database with valid run ids: `cancel_run` answers whether the run is there and active; such
-- a run becomes canceled, and every other run stays as it was.
pub cancel_run_lem :
    (i : ℕ) (now : Time) (db : Database)
    → IsValid db
    → ((cancel_run i now db).0
        ≡ (elim (run_by_id i db) [ none ↦ false | some r ↦ status_in active r.status ]))
      × ((j : ℕ)
          → run_by_id j (cancel_run i now db).1 ≡ (elim (run_by_id j db) [
            | none ↦ none
            | some r ↦
                some (if r.id == i && status_in active r.status then canceled_by_user now r else r)
          ]))
unfolding cancel_run run_by_id
cancel_run_lem i now db v = (
  ground (
    arith,
    rowcount-by_key (λ (r : JobRun). r.id) 0 db.runs db.next_run_id i
        (λ r. status_in active r.status) v,
  ),
  λ j. ground (
    arith,
    by_key-update_where (λ (r : JobRun). r.id) (λ r. r.id == i && status_in active r.status)
        (canceled_by_user now) j db.runs (λ r. refl),
  ),
)
