-- ===== src/Models/Progress.antt =====
-- How a run may change from one state of the database to a later one.
use mathlib.Core.Option
use mathlib.Core.Option.{some-injective}
use native.Mathlib.Numerals.{add-one}
use native.Mathlib.Decide.{dec_lt}
use distributed_asynchronous.Prelude.{
  ℕ, ◌+◌, ◌≤◌, ◌<◌, ◌≡◌, refl, ◌∙◌, Bool, true, false, Option, none, some, [], ◌∷◌, ◌++◌, arith,
  if◌then◌else◌, Option-cases, inl, inr, sym, subst, All,
}
use distributed_asynchronous.Table.{
  by_key, update_where, by_key-update_where, by_key-append, by_key_absent, Ascending, by_key-select,
  Ascending-update_where, Ascending-append, Ascending-select, select,
}
use distributed_asynchronous.Constants.{
  RunStatus, TriggerType, pending, queued, running, succeeded, failed, timed_out, canceled,
}
use distributed_asynchronous.Models.Ticks.{
  clashes, UniqueTicks, KeepsTick, UniqueTicks-update, UniqueTicks-append, UniqueTicks-select,
  clashes-none,
}
use distributed_asynchronous.Models.{Time, Database, JobRun, run_by_id, new_run, add_run}

-- How far a run is: a terminal status is the last stage.
abbrev pub rank : RunStatus → ℕ
rank pending = 0
rank queued = 1
rank running = 2
rank succeeded = 3
rank failed = 3
rank timed_out = 3
rank canceled = 3

-- Run ids ascend along the table and lie below the next value of the sequence.
abbrev pub IsValid : Database → Type 0
IsValid db = Ascending (λ (r : JobRun). r.id) 0 db.runs db.next_run_id

-- What a change to a run keeps: it never goes back to an earlier stage, a cancellation is final,
-- and the columns that say which run it is are never written.
pub record RunKept (r s : JobRun) : Type 0 where
  pub id : s.id ≡ r.id
  pub job_id : s.job_id ≡ r.job_id
  pub attempt : s.attempt ≡ r.attempt
  pub scheduled_for : s.scheduled_for ≡ r.scheduled_for
  pub created_at : s.created_at ≡ r.created_at
  pub forward : rank r.status ≤ rank s.status
  pub final : r.status ≡ canceled → s.status ≡ canceled

pub RunKept-refl : (r : JobRun) → RunKept r r
RunKept-refl r = ground arith

pub RunKept-trans : {r s t : JobRun} → RunKept r s → RunKept s t → RunKept r t
RunKept-trans h k = record {
  id = k.id ∙ h.id;
  job_id = k.job_id ∙ h.job_id;
  attempt = k.attempt ∙ h.attempt;
  scheduled_for = k.scheduled_for ∙ h.scheduled_for;
  created_at = k.created_at ∙ h.created_at;
  forward = omega arith;
  final = λ e. k.final (h.final e);
}

-- From `db` to `later`: every run that is in both was changed as above, new runs take ids that were
-- never used, and the id of a deleted run does not come back.
pub record Progress (db later : Database) : Type 0 where
  pub grows : db.next_run_id ≤ later.next_run_id
  pub valid : IsValid db → IsValid later
  pub unique : UniqueTicks db.runs → UniqueTicks later.runs
  pub kept :
      (i : ℕ) (r s : JobRun) → run_by_id i db ≡ some r → run_by_id i later ≡ some s → RunKept r s
  pub gone : (i : ℕ) → i < db.next_run_id → run_by_id i db ≡ none → run_by_id i later ≡ none

pub RunKept-of_eq : (r s : JobRun) → r ≡ s → RunKept r s
RunKept-of_eq r s e = rw (sym e) (RunKept-refl r)

-- A run that is found has an id below the next one.
pub run_by_id-lt :
    (db : Database) (i : ℕ) (r : JobRun) → IsValid db → run_by_id i db ≡ some r → i < db.next_run_id
unfolding run_by_id
run_by_id-lt db i r v e = elim (dec_lt i db.next_run_id) [
  | yes lt ↦ lt
  | no ge ↦ cc (by_key_absent (λ (x : JobRun). x.id) 0 db.runs db.next_run_id i v (omega arith))
]

pub Progress-refl : (db : Database) → Progress db db
Progress-refl db = record {
  grows = omega arith;
  valid = λ v. v;
  unique = λ u. u;
  kept = λ i r s e f. RunKept-of_eq r s (cc);
  gone = λ i lt e. e;
}

pub Progress-trans : {a b c : Database} → IsValid a → Progress a b → Progress b c → Progress a c
Progress-trans {a} {b} {c} v p q = record {
  grows = omega arith;
  valid = λ v. q.valid (p.valid v);
  unique = λ u. q.unique (p.unique u);
  kept = λ i r t e f. elim (Option-cases (run_by_id i b)) [
    | inl absent ↦ cc (q.gone i (below i r e) absent)
    | inr (s, found) ↦ RunKept-trans (p.kept i r s e found) (q.kept i s t found f)
  ];
  gone = λ i lt e. q.gone i (omega arith) (p.gone i lt e);
}
  where
    below : (i : ℕ) (r : JobRun) → run_by_id i a ≡ some r → i < b.next_run_id
    below i r e = omega (arith, run_by_id-lt a i r v e)

module _ (db later : Database) where
  -- The table of runs was left alone.
  pub Progress-of_same :
      later.runs ≡ db.runs → later.next_run_id ≡ db.next_run_id → Progress db later
  unfolding run_by_id
  Progress-of_same runs next = record {
    grows = omega arith;
    valid = λ v. rw (runs, next) v;
    unique = λ u. rw runs u;
    kept = λ i r s e g. RunKept-of_eq r s (ground arith);
    gone = λ i lt e. ground arith;
  }

  -- A conditional update of the table of runs.
  pub Progress-of_update :
      (test : JobRun → Bool) (f : JobRun → JobRun)
      → KeepsTick f
      → ((i : ℕ) (r : JobRun) → run_by_id i db ≡ some r → test r ≡ true → RunKept r (f r))
      → later.runs ≡ update_where test f db.runs
      → later.next_run_id ≡ db.next_run_id
      → Progress db later
  unfolding run_by_id
  Progress-of_update test f keeps keep runs next = record {
    grows = omega arith;
    valid = λ v.
        rw (runs, next)
          (Ascending-update_where id 0 db.runs db.next_run_id test f (λ r. (keeps r).0) v);
    unique = λ u. rw runs (UniqueTicks-update test f db.runs keeps u);
    kept = λ i r s e g. changed i r s (test r) refl e (cc (found i));
    gone = λ i lt e. cc (found i);
  }
    where
      id : JobRun → ℕ
      id r = r.id

      found :
          (i : ℕ)
          → by_key id i (update_where test f db.runs)
            ≡ Option.map (λ r. if test r then f r else r) (by_key id i db.runs)
      found i = by_key-update_where id test f i db.runs (λ r. (keeps r).0)

      changed :
          (i : ℕ) (r s : JobRun) (b : Bool)
          → test r ≡ b
          → by_key id i db.runs ≡ some r
          → some (if test r then f r else r) ≡ some s
          → RunKept r s
      changed i r s true e h g = subst (RunKept r) (some-injective _ _ (rw e at g)) (keep i r h e)
      changed i r s false e h g = RunKept-of_eq r s (some-injective _ _ (rw e at g))

  -- A new run under the next id.
  pub Progress-of_add :
      (run : JobRun)
      → run.id ≡ db.next_run_id
      → All (λ r. clashes r run ≡ false) db.runs
      → later.runs ≡ db.runs ++ run ∷ []
      → later.next_run_id ≡ db.next_run_id + 1
      → Progress db later
  unfolding run_by_id
  Progress-of_add run fresh free runs next = record {
    grows = omega arith;
    valid =
        λ v. rw (runs, next, add-one) (Ascending-append id 0 db.runs db.next_run_id run fresh v);
    unique = λ u. rw runs (UniqueTicks-append db.runs run free u);
    kept = λ i r s e g. RunKept-of_eq r s (same i r s e g);
    gone = λ i lt e. ground (arith, by_key-append id i db.runs run);
  }
    where
      id : JobRun → ℕ
      id r = r.id

      same :
          (i : ℕ) (r s : JobRun)
          → by_key id i db.runs ≡ some r
          → by_key id i later.runs ≡ some s
          → r ≡ s
      same i r s e g = ground (arith, by_key-append id i db.runs run)

  -- Runs were deleted, and nothing else happened to them.
  pub Progress-of_select :
      (test : JobRun → Bool)
      → later.runs ≡ select test db.runs
      → later.next_run_id ≡ db.next_run_id
      → IsValid db
      → Progress db later
  unfolding run_by_id
  Progress-of_select test runs next v = record {
    grows = omega arith;
    valid = λ v. rw (runs, next) (Ascending-select id 0 db.runs db.next_run_id test v);
    unique = λ u. rw runs (UniqueTicks-select test db.runs u);
    kept = λ i r s e g. RunKept-of_eq r s (ground (arith, found i));
    gone = λ i lt e. ground (arith, found i);
  }
    where
      id : JobRun → ℕ
      id r = r.id

      found :
          (i : ℕ)
          → by_key id i (select test db.runs) ≡ (elim (by_key id i db.runs) [
            | none ↦ none
            | some r ↦ (if test r then some r else none)
          ])
      found i = by_key-select id 0 db.runs db.next_run_id i test v

-- A run that `flush` inserts under the next id.
pub add_run-Progress :
    (job_id : ℕ) (trigger : TriggerType) (status : RunStatus) (attempt : ℕ) (tick : Option Time)
    (now : Time) (db : Database)
    → (let run = new_run job_id trigger status attempt tick now db in
        All (λ r. clashes r run ≡ false) db.runs → Progress db (add_run run db))
unfolding new_run add_run
add_run-Progress job_id trigger status attempt tick now db free =
    Progress-of_add db _ (new_run job_id trigger status attempt tick now db) refl free refl refl

-- One with no tick.
pub add_untimed-Progress :
    (job_id : ℕ) (trigger : TriggerType) (status : RunStatus) (attempt : ℕ) (now : Time)
    (db : Database)
    → Progress db (add_run (new_run job_id trigger status attempt none now db) db)
add_untimed-Progress job_id trigger status attempt now db =
    add_run-Progress job_id trigger status attempt none now db (
      clashes-none db.runs (new_run job_id trigger status attempt none now db)
        (unfold new_run in refl))
