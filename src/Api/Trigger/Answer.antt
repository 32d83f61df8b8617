-- ===== src/Api/Trigger/Answer.antt =====
-- What trigger_job of backend/api/routers/jobs.py answers, sends and commits.
use distributed_asynchronous.Prelude.{
  ℕ, ◌≡◌, ◌⊎◌, refl, ap, subst, ◌++◌, true, Option, none, some, List, [], arith, All, inl, inr,
  Result, ok, err,
}
use distributed_asynchronous.Table.{select}
use distributed_asynchronous.Constants.{manual, status_in}
use distributed_asynchronous.Models.{Time, Job, JobRun, Database}
use distributed_asynchronous.Models.Progress.{IsValid, Progress}
use distributed_asynchronous.Models.Untouched.{OnlyRuns}
use distributed_asynchronous.Store.Defs.{active}
use distributed_asynchronous.Api.Http.{HttpError}
use distributed_asynchronous.Api.Trigger.{
  Failure, cycle, out_of_fuel, Prepared, get_job, Reply, prepare_trigger_run, trigger_job, enough,
  publish_all, answer_prepared,
}
use distributed_asynchronous.Api.Trigger.Stack.{IsRanked, IsWalk-ranked, not_below_itself}
use distributed_asynchronous.Api.Trigger.Prepare.{has_active, is_queued, IsLeaf}
use distributed_asynchronous.Api.Trigger.Outcome.{
  IsCycle, OnPrepared, DependenciesActive, prepare_trigger_run-OnPrepared,
}

-- A successful trigger: the job's run is returned; it and every job that it depends on directly have an
-- active run; runs were added and nothing else changed; and the commands publish those of the new
-- runs that are queued, which are of jobs with no dependencies.
pub record Triggered (job_id : ℕ) (db : Database) (run : JobRun) (reply : Reply JobRun)
    : Type 0 where
  pub for_job : run.job_id ≡ job_id
  pub status : status_in active run.status ≡ true
  pub has_run : has_active job_id reply.db ≡ true
  pub dependencies : DependenciesActive db job_id reply.db
  pub progress : Progress db reply.db
  pub only_runs : OnlyRuns db reply.db
  pub new : List JobRun
  pub appended : reply.db.runs ≡ db.runs ++ new
  pub published : reply.commands ≡ publish_all (select is_queued new)
  pub leaves : All (IsLeaf db) (select is_queued new)

-- A refused one: nothing was committed or sent, and a conflict means a cycle of dependencies.
pub record Refused (job_id user_id : ℕ) (db : Database) (e : HttpError) (reply : Reply JobRun)
    : Type 0 where
  pub rolled_back : reply.db ≡ db
  pub silent : reply.commands ≡ []
  pub reason :
      ((e.status_code ≡ 404) × (get_job job_id user_id db ≡ none))
      ⊎ ((e.status_code ≡ 409) × ((nodes : List ℕ) × IsCycle db nodes))

abbrev pub Answers :
    (job_id user_id : ℕ) (db : Database) → Result HttpError JobRun → Reply JobRun → Type 0
Answers job_id user_id db (ok run) reply = Triggered job_id db run reply
Answers job_id user_id db (err e) reply = Refused job_id user_id db e reply

prepared :
    (job_id : ℕ) (now : Time) (db : Database)
    → IsValid db
    → OnPrepared db job_id
        (record { runs_to_publish = []; db = db })
        (prepare_trigger_run
          (enough db)
          now
          job_id
          manual
          []
          (record { runs_to_publish = []; db = db }))
prepared job_id now db v =
    prepare_trigger_run-OnPrepared db (enough db) now job_id manual []
      (record { runs_to_publish = []; db = db }) (record { valid = v; same = refl })
      (record { distinct = tt; within = tt; walk = tt }) (omega arith)

Answers-prepared :
    (job_id user_id : ℕ) (db : Database) (r : Result Failure Prepared)
    → OnPrepared db job_id (record { runs_to_publish = []; db = db }) r
    → Answers job_id user_id db (answer_prepared db r).answer (answer_prepared db r)
Answers-prepared job_id user_id db (ok done) h = record {
  for_job = h.0.job_id;
  status = h.0.status;
  has_run = h.0.has_run;
  dependencies = h.1;
  progress = h.0.carries.progress;
  only_runs = h.0.carries.only_runs;
  new = h.0.carries.new;
  appended = h.0.carries.appended;
  published = ap publish_all h.0.carries.published;
  leaves = subst (All (IsLeaf db)) h.0.carries.published (h.0.carries.leaves tt);
}
Answers-prepared job_id user_id db (err (cycle nodes)) h = record {
  rolled_back = refl;
  silent = refl;
  reason = inr (refl, (nodes, h));
}
Answers-prepared job_id user_id db (err out_of_fuel) h = absurd h

-- In a database with valid run ids a manual trigger ends. It returns a run of the job: then the job
-- and every job that it depends on directly have an active run, runs were added, which progress,
-- and no other table changed, and exactly those of the new runs that are queued are published,
-- all of them runs of jobs with no dependencies. Or it is refused with nothing committed or sent:
-- with 404 as the user has no such job, or with 409 as there is a cycle of dependencies.
pub trigger_job-Answers :
    (job_id user_id : ℕ) (now : Time) (db : Database)
    → IsValid db
    → (let reply = trigger_job job_id user_id now db in
        Answers job_id user_id db reply.answer reply)
unfolding trigger_job
trigger_job-Answers job_id user_id now db v = go (get_job job_id user_id db) refl
  where
    go :
        (o : Option Job)
        → get_job job_id user_id db ≡ o
        → (let reply = trigger_job job_id user_id now db in
            Answers job_id user_id db reply.answer reply)
    go none e =
        rw (e, trigger_job) (record { rolled_back = refl; silent = refl; reason = inl (refl, e) })
    go (some job) e =
        rw (e, trigger_job) (Answers-prepared job_id user_id db _ (prepared job_id now db v))

no_cycle : (db : Database) (rank : ℕ → ℕ) (nodes : List ℕ) → IsRanked db rank → IsCycle db nodes → ⊥
no_cycle db rank nodes r c = cc (
  c.repeats,
  not_below_itself rank c.front c.last (IsWalk-ranked db rank c.front c.last r c.walk),
)

-- In a database with valid run ids, where some rank puts every dependency below its job, a trigger
-- of a job that the user has succeeds.
pub trigger_job-acyclic :
    (rank : ℕ → ℕ) (job_id user_id : ℕ) (now : Time) (db : Database) (job : Job)
    → IsValid db
    → IsRanked db rank
    → get_job job_id user_id db ≡ some job
    → (run : JobRun) × ((trigger_job job_id user_id now db).answer ≡ ok run)
      × Triggered job_id db run (trigger_job job_id user_id now db)
trigger_job-acyclic rank job_id user_id now db job v r e =
    go (trigger_job job_id user_id now db).answer refl (trigger_job-Answers job_id user_id now db v)
  where
    reply : Reply JobRun
    reply = trigger_job job_id user_id now db

    go :
        (a : Result HttpError JobRun)
        → reply.answer ≡ a
        → Answers job_id user_id db a reply
        → (run : JobRun) × (reply.answer ≡ ok run) × Triggered job_id db run reply
    go (ok run) same h = (run, same, h)
    go (err x) same h = elim h.reason [
      | inl (_, absent) ↦ cc
      | inr (_, (nodes, c)) ↦ absurd (no_cycle db rank nodes r c)
    ]
