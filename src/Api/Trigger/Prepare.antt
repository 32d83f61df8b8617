-- ===== src/Api/Trigger/Prepare.antt =====
-- What `_prepare_trigger_run` of backend/api/routers/jobs.py does to the runs.
use distributed_asynchronous.Prelude.{
  ℕ, ◌≡◌, refl, sym, ◌∙◌, Bool, true, false, not, ◌&&◌, Option, none, some, List, [], ◌∷◌, ◌++◌,
  arith, ◌==◌, All, All-append, is_none, ==-refl,
}
use mathlib.Core.List.{append_assoc, append-nil}
use distributed_asynchronous.Table.{select, earliest, earliest-select, select-append}
use distributed_asynchronous.Constants.{TriggerType, RunStatus, pending, queued, status_in}
use distributed_asynchronous.Models.{Time, JobRun, Database, new_run, add_run}
use distributed_asynchronous.Models.Progress.{
  IsValid, Progress, Progress-refl, Progress-trans, add_untimed-Progress,
}
use distributed_asynchronous.Models.Untouched.{OnlyRuns, OnlyRuns-trans}
use distributed_asynchronous.Store.Defs.{active, dependency_ids}
use distributed_asynchronous.Dispatch.{create_run}
use distributed_asynchronous.Api.Trigger.{
  active_run, Prepared, Progressed, pending_unless_active, queue_leaf,
}

-- Whether a job has a run that is pending, queued or running.
abbrev pub has_active : ℕ → Database → Bool
has_active job_id db = not (is_none (active_run job_id db))

earliest-some :
    (key : JobRun → ℕ) (test : JobRun → Bool) (xs ys : List JobRun)
    → is_none (earliest key (select test xs)) ≡ false
    → is_none (earliest key (select test (xs ++ ys))) ≡ false
unfolding earliest select
earliest-some key test [] ys h = cc
earliest-some key test (x ∷ xs) ys h = ground (arith, earliest-some key test xs ys)

earliest-last :
    (key : JobRun → ℕ) (test : JobRun → Bool) (xs : List JobRun) (y : JobRun)
    → test y ≡ true
    → is_none (earliest key (select test (xs ++ y ∷ []))) ≡ false
unfolding earliest select
earliest-last key test [] y h = ground arith
earliest-last key test (x ∷ xs) y h = ground (arith, earliest-last key test xs y h)

-- A queued run of a job with no dependencies.
abbrev pub IsLeaf : Database → JobRun → Type 0
IsLeaf db r = (r.status ≡ queued) × (dependency_ids r.job_id db ≡ [])

abbrev pub is_queued : JobRun → Bool
is_queued r = status_in (queued ∷ []) r.status

-- From `p` to `q` runs were added and nothing else was done; those of them that are queued, and no
-- others, are to be published, and they are runs of jobs with no dependencies.
pub record Carries (p q : Progressed) : Type 0 where
  pub progress : Progress p.db q.db
  pub dependencies : q.db.dependencies ≡ p.db.dependencies
  pub only_runs : OnlyRuns p.db q.db
  pub keeps_active : (j : ℕ) → has_active j p.db ≡ true → has_active j q.db ≡ true
  pub new : List JobRun
  pub appended : q.db.runs ≡ p.db.runs ++ new
  pub published : q.runs_to_publish ≡ p.runs_to_publish ++ select is_queued new
  pub leaves : All (IsLeaf p.db) p.runs_to_publish → All (IsLeaf p.db) q.runs_to_publish

pub Carries-refl : (p : Progressed) → Carries p p
Carries-refl p = record {
  progress = Progress-refl p.db;
  dependencies = refl;
  only_runs = refl;
  keeps_active = λ j h. h;
  new = [];
  appended = sym (append-nil p.db.runs);
  published = unfold select in sym (append-nil p.runs_to_publish);
  leaves = λ h. h;
}

dependency_ids-same :
    (j : ℕ) (a b : Database)
    → a.dependencies ≡ b.dependencies
    → dependency_ids j a ≡ dependency_ids j b
unfolding dependency_ids
dependency_ids-same j a b e = rw e

All-IsLeaf :
    (a b : Database) (rs : List JobRun)
    → a.dependencies ≡ b.dependencies
    → All (IsLeaf a) rs
    → All (IsLeaf b) rs
All-IsLeaf a b [] e h = tt
All-IsLeaf a b (r ∷ rs) e h =
    ((h.0.0, sym (dependency_ids-same r.job_id a b e) ∙ h.0.1), All-IsLeaf a b rs e h.1)

pub Carries-trans : {p q r : Progressed} → IsValid p.db → Carries p q → Carries q r → Carries p r
Carries-trans {p} {q} {r} v a b = record {
  progress = Progress-trans v a.progress b.progress;
  dependencies = b.dependencies ∙ a.dependencies;
  only_runs = OnlyRuns-trans p.db q.db r.db a.only_runs b.only_runs;
  keeps_active = λ j h. b.keeps_active j (a.keeps_active j h);
  new = a.new ++ b.new;
  appended = rw (b.appended, a.appended) (append_assoc p.db.runs a.new b.new);
  published =
      rw (b.published, a.published, select-append is_queued a.new b.new)
        (append_assoc p.runs_to_publish (select is_queued a.new) (select is_queued b.new));
  leaves = λ h.
      All-IsLeaf q.db p.db r.runs_to_publish a.dependencies
        (b.leaves (All-IsLeaf p.db q.db q.runs_to_publish (sym a.dependencies) (a.leaves h)));
}

-- The result for a job: it has an active run, which is the one returned.
pub record Prepares (job : ℕ) (p : Progressed) (done : Prepared) : Type 0 where
  pub carries : Carries p (record { runs_to_publish = done.runs_to_publish; db = done.db })
  pub has_run : has_active job done.db ≡ true
  pub job_id : done.run.job_id ≡ job
  pub status : status_in active done.run.status ≡ true

module _ (job_id : ℕ) (trigger : TriggerType) (status : RunStatus) (now : Time)
    (p : Progressed) where
  abbrev run : JobRun
  run = new_run job_id trigger status 1 none now p.db

  abbrev is_active : ℕ → JobRun → Bool
  is_active j r = r.job_id == j && status_in active r.status

  add_run-keeps : (j : ℕ) → has_active j p.db ≡ true → has_active j (add_run run p.db) ≡ true
  unfolding active_run add_run
  add_run-keeps j h =
      ground (arith, earliest-some (λ r. r.created_at) (is_active j) p.db.runs (run ∷ []))

  -- A new run, published or not.
  add_run-Carries :
      (publish : List JobRun)
      → publish ≡ p.runs_to_publish ++ select is_queued (run ∷ [])
      → (All (IsLeaf p.db) p.runs_to_publish → All (IsLeaf p.db) publish)
      → Carries p (record { runs_to_publish = publish; db = add_run run p.db })
  add_run-Carries publish exact leaves = record {
    progress = add_untimed-Progress job_id trigger status 1 now p.db;
    dependencies = unfold add_run in refl;
    only_runs = unfold add_run in refl;
    keeps_active = λ j h. add_run-keeps j h;
    new = run ∷ [];
    appended = unfold add_run in refl;
    published = exact;
    leaves = leaves;
  }

  add_run-active : status_in active status ≡ true → has_active job_id (add_run run p.db) ≡ true
  unfolding active_run add_run new_run
  add_run-active h = ground (
    arith,
    earliest-last (λ r. r.created_at) (is_active job_id) p.db.runs run (rw (==-refl job_id) h),
  )

pub queue_leaf-Prepares :
    (job_id : ℕ) (trigger : TriggerType) (now : Time) (p : Progressed)
    → dependency_ids job_id p.db ≡ []
    → Prepares job_id p (queue_leaf job_id trigger now p)
unfolding queue_leaf create_run
queue_leaf-Prepares job_id trigger now p leaf = record {
  carries = add_run-Carries job_id trigger queued now p _ (unfold select new_run in refl) (λ h.
      All-append (IsLeaf p.db) p.runs_to_publish (run job_id trigger queued now p ∷ []) h
        ((unfold new_run in refl, unfold new_run in leaf), tt));
  has_run = add_run-active job_id trigger queued now p refl;
  job_id = unfold new_run in refl;
  status = unfold new_run in refl;
}

pub pending_unless_active-Prepares :
    (job_id : ℕ) (trigger : TriggerType) (now : Time) (p : Progressed)
    → IsValid p.db
    → Prepares job_id p (pending_unless_active job_id trigger now p)
unfolding pending_unless_active create_run
pending_unless_active-Prepares job_id trigger now p v = go (active_run job_id p.db) refl
  where
    found :
        (r : JobRun)
        → active_run job_id p.db ≡ some r
        → (r.job_id ≡ job_id) × (status_in active r.status ≡ true)
    found r e =
        unfold active_run in
        ground (
          arith,
          earliest-select (λ (x : JobRun). x.id) (λ x. x.created_at) 0 p.db.runs p.db.next_run_id
              (λ x. x.job_id == job_id && status_in active x.status) r v,
        )

    go :
        (o : Option JobRun)
        → active_run job_id p.db ≡ o
        → Prepares job_id p (pending_unless_active job_id trigger now p)
    go none e =
        rw (e, pending_unless_active)
          (record {
            carries =
                add_run-Carries job_id trigger pending now p p.runs_to_publish
                  (unfold select new_run in sym (append-nil p.runs_to_publish)) (λ h. h);
            has_run = add_run-active job_id trigger pending now p refl;
            job_id = unfold new_run in refl;
            status = unfold new_run in refl;
          })
    go (some r) e =
        rw (e, pending_unless_active)
          (record {
            carries = Carries-refl p;
            has_run = rw e refl;
            job_id = (found r e).0;
            status = (found r e).1;
          })
