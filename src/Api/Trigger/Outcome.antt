-- ===== src/Api/Trigger/Outcome.antt =====
-- How `_prepare_trigger_run` of backend/api/routers/jobs.py ends.
use distributed_asynchronous.Prelude.{
  ℕ, zero, suc, ◌+◌, ◌≤◌, ◌≡◌, refl, sym, ap, ◌∙◌, true, false, List, [], ◌∷◌, ◌++◌, arith, All,
  contains, subst, ==_iff, ◌==◌, length, length-append, is_none, Bool-cases, inl, inr, Result, ok,
  err, ◌>>=◌, map,
}
use distributed_asynchronous.Constants.{TriggerType, dependency}
use distributed_asynchronous.Models.{Time, JobDependency, Database}
use distributed_asynchronous.Models.Progress.{IsValid}
use distributed_asynchronous.Store.Defs.{dependency_ids}
use distributed_asynchronous.Api.Trigger.{
  active_run, Failure, cycle, out_of_fuel, Prepared, Progressed, prepare_dependencies,
  pending_unless_active, prepare_trigger_run,
}
use distributed_asynchronous.Api.Trigger.Stack.{
  Distinct, Distinct-append, Within, Within-append, length-Within, IsWalk, IsWalk-append,
  contains-job_ids,
}
use distributed_asynchronous.Api.Trigger.Prepare.{
  has_active, Carries, Carries-refl, Carries-trans, Prepares, queue_leaf-Prepares,
  pending_unless_active-Prepares,
}

-- A walk along dependencies that comes back to a job.
pub record IsCycle (db : Database) (nodes : List ℕ) : Type 0 where
  pub front : List ℕ
  pub last : ℕ
  pub ends : nodes ≡ front ++ last ∷ []
  pub walk : IsWalk db (front ++ last ∷ [])
  pub repeats : contains front last ≡ true

module _ (db : Database) where
  abbrev pub Fails : Failure → Type 0
  Fails (cycle nodes) = IsCycle db nodes
  Fails out_of_fuel = ⊥

  -- Every job that the job depends on directly has an active run.
  abbrev pub DependenciesActive : ℕ → Database → Type 0
  DependenciesActive j later =
      (d : ℕ) → contains (dependency_ids j db) d ≡ true → has_active d later ≡ true

  abbrev pub OnPrepared : ℕ → Progressed → Result Failure Prepared → Type 0
  OnPrepared j p (ok done) = Prepares j p done × DependenciesActive j done.db
  OnPrepared j p (err f) = Fails f

  abbrev OnLoop : List ℕ → Progressed → Result Failure Progressed → Type 0
  OnLoop ds p (ok q) = Carries p q × All (λ d. has_active d q.db ≡ true) ds
  OnLoop ds p (err f) = Fails f

  -- The state on which a call works: a valid database with the dependencies of `db`.
  pub record Fits (p : Progressed) : Type 0 where
    pub valid : IsValid p.db
    pub same : p.db.dependencies ≡ db.dependencies

  Fits-Carries : {p q : Progressed} → Fits p → Carries p q → Fits q
  Fits-Carries f c = record { valid = c.progress.valid f.valid; same = c.dependencies ∙ f.same }

  OnLoop-after :
      (d : ℕ) (ds : List ℕ) {p q : Progressed} (r : Result Failure Progressed)
      → Fits p
      → Carries p q
      → has_active d q.db ≡ true
      → OnLoop ds q r
      → OnLoop (d ∷ ds) p r
  OnLoop-after d ds (err f) fits c a h = h
  OnLoop-after d ds (ok s) fits c a h =
      (Carries-trans fits.valid c h.0, (h.0.keeps_active d a, h.1))

  prepare_dependencies-OnLoop :
      (prepare : ℕ → Progressed → Result Failure Prepared) (ds : List ℕ) (p : Progressed)
      → Fits p
      → All (λ d. (q : Progressed) → Fits q → OnPrepared d q (prepare d q)) ds
      → OnLoop ds p (prepare_dependencies prepare ds p)
  unfolding prepare_dependencies
  prepare_dependencies-OnLoop prepare [] p fits h = (Carries-refl p, tt)
  prepare_dependencies-OnLoop prepare (d ∷ ds) p fits h =
      elim (Bool-cases (is_none (active_run d p.db))) [
        | inl idle ↦
            rw idle (
              go (prepare d p) (h.0 p fits) (λ q f. prepare_dependencies-OnLoop prepare ds q f h.1))
        | inr busy ↦ rw busy (
            OnLoop-after d ds (prepare_dependencies prepare ds p) fits (Carries-refl p)
              (rw busy refl) (prepare_dependencies-OnLoop prepare ds p fits h.1))
      ]
    where
      rest : (done : Prepared) → Progressed
      rest done = record { runs_to_publish = done.runs_to_publish; db = done.db }

      go :
          (r : Result Failure Prepared)
          → OnPrepared d p r
          → ((q : Progressed) → Fits q → OnLoop ds q (prepare_dependencies prepare ds q))
          → OnLoop (d ∷ ds) p (r >>= λ done. prepare_dependencies prepare ds (rest done))
      go (err f) e ih = e
      go (ok done) e ih =
          let q = rest done in
          OnLoop-after d ds (prepare_dependencies prepare ds q) fits e.0.carries e.0.has_run
            (ih q (Fits-Carries fits e.0.carries))

  abbrev pub job_ids : List ℕ
  job_ids = map (λ (d : JobDependency). d.job_id) db.dependencies

  length-job_ids :
      (rows : List JobDependency)
      → length (map (λ (d : JobDependency). d.job_id) rows) ≡ length rows
  length-job_ids [] = refl
  length-job_ids (r ∷ rows) = ap suc (length-job_ids rows)

  -- The stack of a call: a walk that ends at the job, with no repetition, of jobs with dependencies.
  pub record OnStack (stack : List ℕ) (job_id : ℕ) : Type 0 where
    pub distinct : Distinct stack
    pub within : Within stack job_ids
    pub walk : IsWalk db (stack ++ job_id ∷ [])

  push :
      (stack : List ℕ) (job_id d : ℕ)
      → OnStack stack job_id
      → contains stack job_id ≡ false
      → contains job_ids job_id ≡ true
      → contains (dependency_ids job_id db) d ≡ true
      → OnStack (stack ++ job_id ∷ []) d
  push stack job_id d s new listed dep = record {
    distinct = Distinct-append stack job_id s.distinct new;
    within = Within-append stack job_id job_ids s.within listed;
    walk = IsWalk-append db stack job_id d s.walk dep;
  }

  OnStack-length :
      (stack : List ℕ) (job_id : ℕ) → OnStack stack job_id → length stack ≤ length db.dependencies
  OnStack-length stack job_id s =
      omega (arith, length-Within stack job_ids s.distinct s.within, length-job_ids db.dependencies)

  -- What holds of all elements.
  All-contains : (P : ℕ → Type 0) (xs : List ℕ) → ((x : ℕ) → contains xs x ≡ true → P x) → All P xs
  All-contains P [] h = tt
  All-contains P (x ∷ xs) h = (h x (ground arith), All-contains P xs (λ y m. h y (ground arith)))

  same_ids : (j : ℕ) (p : Progressed) → Fits p → dependency_ids j p.db ≡ dependency_ids j db
  unfolding dependency_ids
  same_ids j p fits = rw fits.same

  contains-All : (P : ℕ → Type 0) (xs : List ℕ) (x : ℕ) → All P xs → contains xs x ≡ true → P x
  contains-All P [] x h m = cc
  contains-All P (y ∷ xs) x h m = elim (Bool-cases (y == x)) [
    | inl e ↦ subst P ((==_iff y x).0 e) h.0
    | inr e ↦ contains-All P xs x h.1 (ground arith)
  ]

  -- After the loop of a job with dependencies.
  finish :
      (job_id : ℕ) (trigger : TriggerType) (now : Time) (ds : List ℕ) (p : Progressed)
      (r : Result Failure Progressed)
      → Fits p
      → dependency_ids job_id db ≡ ds
      → OnLoop ds p r
      → OnPrepared job_id p (r >>= λ q. ok (pending_unless_active job_id trigger now q))
  finish job_id trigger now ds p (err f) fits ids e = e
  finish job_id trigger now ds p (ok q) fits ids e =
      let done =
        pending_unless_active-Prepares job_id trigger now q ((Fits-Carries fits e.0).valid) in
      (
        record {
          carries = Carries-trans fits.valid e.0 done.carries;
          has_run = done.has_run;
          job_id = done.job_id;
          status = done.status;
        },
        λ d m.
            done.carries.keeps_active d
              (contains-All (λ x. has_active x q.db ≡ true) ds d e.1 (rw ids at m)),
      )

  pub prepare_trigger_run-OnPrepared :
      (fuel : ℕ) (now : Time) (job_id : ℕ) (trigger : TriggerType) (stack : List ℕ) (p : Progressed)
      → Fits p
      → OnStack stack job_id
      → length db.dependencies + 2 ≤ fuel + length stack
      → OnPrepared job_id p (prepare_trigger_run fuel now job_id trigger stack p)
  unfolding prepare_trigger_run
  prepare_trigger_run-OnPrepared zero now job_id trigger stack p fits s enough =
      absurd (omega (arith, OnStack-length stack job_id s))
  prepare_trigger_run-OnPrepared (suc fuel) now job_id trigger stack p fits s enough =
      elim (Bool-cases (contains stack job_id)) [
        | inl found ↦
            rw found
              (record { front = stack; last = job_id; ends = refl; walk = s.walk; repeats = found })
        | inr new ↦ go new (dependency_ids job_id p.db) refl (
            visits new λ d q f t le.
              prepare_trigger_run-OnPrepared fuel now d dependency (stack ++ job_id ∷ []) q f t le)
      ]
    where
      descend : ℕ → Progressed → Result Failure Prepared
      descend d q = prepare_trigger_run fuel now d dependency (stack ++ job_id ∷ []) q

      Visits : List ℕ → Type 0
      Visits ds = All (λ d. (q : Progressed) → Fits q → OnPrepared d q (descend d q)) ds

      here : (ids : List ℕ) → dependency_ids job_id p.db ≡ ids → dependency_ids job_id db ≡ ids
      here ids e = sym (same_ids job_id p fits) ∙ e

      visits :
          contains stack job_id ≡ false
          → ((d : ℕ) (q : Progressed)
              → Fits q
              → OnStack (stack ++ job_id ∷ []) d
              → length db.dependencies + 2 ≤ fuel + length (stack ++ job_id ∷ [])
              → OnPrepared d q (descend d q))
          → (d : ℕ) (ds : List ℕ) → dependency_ids job_id p.db ≡ d ∷ ds
          → Visits (d ∷ ds)
      visits new ih d ds e =
          All-contains (λ x. (q : Progressed) → Fits q → OnPrepared x q (descend x q)) (d ∷ ds)
            λ x m q f.
              ih x q f
                (push stack job_id x s new (contains-job_ids job_id d ds db (here (d ∷ ds) e))
                  (rw (here (d ∷ ds) e) m))
                (omega (arith, length-append stack (job_id ∷ [])))

      go :
          contains stack job_id ≡ false
          → (ids : List ℕ) → dependency_ids job_id p.db ≡ ids
          → ((d : ℕ) (ds : List ℕ) → dependency_ids job_id p.db ≡ d ∷ ds → Visits (d ∷ ds))
          → OnPrepared job_id p (prepare_trigger_run (suc fuel) now job_id trigger stack p)
      go new [] e ih =
          rw (new, e, prepare_trigger_run)
            (queue_leaf-Prepares job_id trigger now p e, λ d m. cc (here [] e))
      go new (d ∷ ds) e ih =
          rw (new, e, prepare_trigger_run)
            (finish job_id trigger now (d ∷ ds) p (prepare_dependencies descend (d ∷ ds) p) fits
              (here (d ∷ ds) e) (prepare_dependencies-OnLoop descend (d ∷ ds) p fits (ih d ds e)))
