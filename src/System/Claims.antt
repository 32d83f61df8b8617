-- ===== src/System/Claims.antt =====
-- The claims of a run along a history.
use distributed_asynchronous.Prelude.{
  ℕ, ◌+◌, ◌≤◌, ◌<◌, ◌≡◌, refl, Bool, true, false, ◌&&◌, some, List, [], ◌∷◌, arith, inl, inr,
  Bool-cases, Option-cases, ◌==◌, ==_iff, is_some, if◌then◌else◌, String,
}
use distributed_asynchronous.Models.{Time, JobRun, Database, run_by_id}
use distributed_asynchronous.Models.Progress.{rank, IsValid, Progress, run_by_id-lt}
use distributed_asynchronous.Store.Defs.{Claimed}
use distributed_asynchronous.Store.Defs as Store
use distributed_asynchronous.Store.Claim.{claim_run-claim_of, claim_run_running}
use distributed_asynchronous.System.{
  Environment, Transaction, claim_run, transact, FindsPending, Undisturbed,
}
use distributed_asynchronous.System.Runs.{transact-Progress}

-- Whether the transaction is an ordinary claim (without allow_running) of the run `i`, and gets it.
abbrev pub takes : ℕ → Transaction → Time → Database → Bool
takes i (claim_run run_id worker_id false) now db =
    run_id == i && is_some (Store.claim_run run_id worker_id false now db).0
takes i t now db = false

-- Whether the transaction is a claim of the run `i` of either kind, and gets it.
abbrev pub gets : ℕ → Transaction → Time → Database → Bool
gets i (claim_run run_id worker_id allow_running) now db =
    run_id == i && is_some (Store.claim_run run_id worker_id allow_running now db).0
gets i t now db = false

-- The run has been running, and will not be ready for an ordinary claim again.
pub record IsStarted (i : ℕ) (db : Database) : Type 0 where
  pub used : i < db.next_run_id
  pub begun : (r : JobRun) → run_by_id i db ≡ some r → 2 ≤ rank r.status

pub IsStarted-Progress :
    (i : ℕ) (db later : Database) → Progress db later → IsStarted i db → IsStarted i later
IsStarted-Progress i db later p s = record {
  used = omega (arith, s.used, p.grows);
  begun = λ r found. elim (Option-cases (run_by_id i db)) [
    | inl absent ↦ cc (p.gone i s.used absent)
    | inr (old, there) ↦ omega (arith, s.begun old there, (p.kept i old r there found).forward)
  ];
}

pub started_untaken :
    (i : ℕ) (w : String) (now : Time) (db : Database)
    → IsValid db
    → IsStarted i db
    → is_some (Store.claim_run i w false now db).0 ≡ false
started_untaken i w now db v s = elim (Option-cases (run_by_id i db)) [
  | inl absent ↦ ground (arith, claim_run-claim_of i w false now db v)
  | inr (r, found) ↦ ground (arith, claim_run-claim_of i w false now db v, s.begun r found)
]

pub claimed_IsStarted :
    (i : ℕ) (w : String) (b : Bool) (now : Time) (db : Database)
    → IsValid db
    → IsValid (Store.claim_run i w b now db).1
    → is_some (Store.claim_run i w b now db).0 ≡ true
    → IsStarted i (Store.claim_run i w b now db).1
claimed_IsStarted i w b now db v valid e = elim (Option-cases (Store.claim_run i w b now db).0) [
  | inl absent ↦ ground arith
  | inr (c, got) ↦
      let (r, found, is_running, _, _, _) = claim_run_running i w b now db c v got in
      record {
        used = run_by_id-lt _ i r valid found;
        begun = λ s found'. ground (arith, found, found', is_running);
      }
]

module _ (env : Environment) (i : ℕ) where
  -- How many ordinary claims of the run succeed along a history.
  abbrev pub claims : List (Transaction × Time) → Database → ℕ
  claims [] db = 0
  claims ((t, now) ∷ rest) db =
      (if takes i t now db then 1 else 0) + claims rest (transact env t now db)

  untaken :
      (t : Transaction) (now : Time) (db : Database)
      → IsValid db
      → IsStarted i db
      → takes i t now db ≡ false
  untaken (claim_run run_id w false) now db v s =
      ground (arith, ==_iff run_id i, started_untaken i w now db v s)
  untaken t now db v s = refl

  -- Once the run has started, no ordinary claim of it succeeds.
  pub IsStarted-claims :
      (h : List (Transaction × Time)) (db : Database)
      → IsValid db
      → Undisturbed env h db
      → IsStarted i db
      → claims h db ≡ 0
  IsStarted-claims [] db v u s = refl
  IsStarted-claims ((t, now) ∷ rest) db v u s =
      let p = transact-Progress env t now db v u.0 in
      ground (
        arith,
        untaken t now db v s,
        IsStarted-claims rest (transact env t now db) (p.valid v) u.1
            (IsStarted-Progress i db (transact env t now db) p s),
      )

  gets-IsStarted :
      (t : Transaction) (now : Time) (db : Database)
      → IsValid db
      → gets i t now db ≡ true
      → IsStarted i (transact env t now db)
  unfolding transact
  gets-IsStarted (claim_run run_id w b) now db v h =
      let same : run_id ≡ i = ground (arith, ==_iff run_id i) in
      let p = transact-Progress env (claim_run run_id w b) now db v tt in
      rw (← same) (claimed_IsStarted run_id w b now db v (p.valid v) (ground arith))
  gets-IsStarted t now db v h = cc

  -- In a database with valid run ids: after a claim of a run that succeeded, with or without
  -- allow_running, whatever transactions the processes commit and in whatever order, where each
  -- promotion finds its run pending, no ordinary claim of the run succeeds.
  pub gets-claims :
      (t : Transaction) (now : Time) (rest : List (Transaction × Time)) (db : Database)
      → IsValid db
      → FindsPending env t db
      → Undisturbed env rest (transact env t now db)
      → gets i t now db ≡ true
      → claims rest (transact env t now db) ≡ 0
  gets-claims t now rest db v waits u h =
      IsStarted-claims rest (transact env t now db)
        ((transact-Progress env t now db v waits).valid v) u (gets-IsStarted t now db v h)

  takes-gets :
      (t : Transaction) (now : Time) (db : Database)
      → takes i t now db ≡ true
      → gets i t now db ≡ true
  takes-gets (claim_run run_id w false) now db h = h
  takes-gets t now db h = cc

  -- From a database with valid run ids, whatever transactions the processes commit and in whatever
  -- order, where each promotion of a pending run by create_dependency_run finds the run still
  -- pending: at most one ordinary claim of a run succeeds.
  pub claims_once :
      (h : List (Transaction × Time)) (db : Database)
      → IsValid db
      → Undisturbed env h db
      → claims h db ≤ 1
  claims_once [] db v u = omega arith
  claims_once ((t, now) ∷ rest) db v u = elim (Bool-cases (takes i t now db)) [
    | inl taken ↦ ground (arith, gets-claims t now rest db v u.0 u.1 (takes-gets t now db taken))
    | inr untaken' ↦ ground (
      arith,
      claims_once rest (transact env t now db) ((transact-Progress env t now db v u.0).valid v) u.1,
    )
  ]
