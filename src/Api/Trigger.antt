-- ===== src/Api/Trigger.antt =====
-- backend/api/routers/jobs.py: a manual trigger, with the upstream jobs first.
pub mod Stack
pub mod Prepare
pub mod Outcome
pub mod Answer
use distributed_asynchronous.Prelude.{
  ℕ, zero, suc, ◌+◌, ◌&&◌, Option, none, some, List, [], ◌∷◌, ◌++◌, ◌==◌, if◌then◌else◌, is_none,
  contains, length, joined, show, String, Bool, false, Result, ok, err, ◌>>=◌,
}
use distributed_asynchronous.Table.{select, earliest, first}
use distributed_asynchronous.Constants.{TriggerType, dependency, manual, pending, queued, status_in}
use distributed_asynchronous.Models.{Time, JobRun, Job, Database}
use distributed_asynchronous.Store.Defs.{active, dependency_ids}
use distributed_asynchronous.Dispatch.{create_run, publish}
use distributed_asynchronous.Queue.{Command}
use distributed_asynchronous.Api.Http.{HttpError, not_found, conflict}

-- _active_run
unfoldable pub active_run : ℕ → Database → Option JobRun
active_run job_id db =
    earliest (λ run. run.created_at)
      (select (λ run. run.job_id == job_id && status_in active run.status) db.runs)

-- The jobs on a cycle of dependencies, or the end of the model's fuel.
pub data Failure : Type 0 where
  cycle : List ℕ → Failure
  out_of_fuel : Failure

-- The run, `runs_to_publish`, and the session's database.
pub record Prepared : Type 0 where
  pub run : JobRun
  pub runs_to_publish : List JobRun
  pub db : Database

-- `runs_to_publish` and the database between two calls.
pub record Progressed : Type 0 where
  pub runs_to_publish : List JobRun
  pub db : Database

-- The loop over the dependencies, given the recursive call.
unfoldable pub prepare_dependencies :
    (ℕ → Progressed → Result Failure Prepared) → List ℕ → Progressed → Result Failure Progressed
prepare_dependencies prepare [] p = ok p
prepare_dependencies prepare (dep_id ∷ deps) p =
    if is_none (active_run dep_id p.db)
    then (do
      done ← prepare dep_id p
      prepare_dependencies prepare deps
          (record { runs_to_publish = done.runs_to_publish; db = done.db }))
    else prepare_dependencies prepare deps p

-- After the loop: the active run, or a new pending one.
unfoldable pub pending_unless_active : ℕ → TriggerType → Time → Progressed → Prepared
unfolding create_run
pending_unless_active job_id trigger_type now p = elim (active_run job_id p.db) [
  | some run ↦ record { run = run; runs_to_publish = p.runs_to_publish; db = p.db }
  | none ↦
      let (run, db') = create_run job_id trigger_type none 1 pending now p.db in
      record { run = run; runs_to_publish = p.runs_to_publish; db = db' }
]

-- A job with no dependencies: a queued run.
unfoldable pub queue_leaf : ℕ → TriggerType → Time → Progressed → Prepared
unfolding create_run
queue_leaf job_id trigger_type now p =
    let (run, db') = create_run job_id trigger_type none 1 queued now p.db in
    record { run = run; runs_to_publish = p.runs_to_publish ++ run ∷ []; db = db' }

-- _prepare_trigger_run: the fuel bounds the depth of the recursion.
unfoldable pub prepare_trigger_run :
    ℕ → Time → ℕ → TriggerType → List ℕ → Progressed → Result Failure Prepared
prepare_trigger_run zero now job_id trigger_type stack p = err out_of_fuel
prepare_trigger_run (suc fuel) now job_id trigger_type stack p =
    let descend = λ (dep_id : ℕ) (q : Progressed).
      prepare_trigger_run fuel now dep_id dependency (stack ++ job_id ∷ []) q in
    if contains stack job_id
    then err (cycle (stack ++ job_id ∷ []))
    else elim (dependency_ids job_id p.db) [
      | [] ↦ ok (queue_leaf job_id trigger_type now p)
      | d ∷ ds ↦ do
        q ← prepare_dependencies descend (d ∷ ds) p
        ok (pending_unless_active job_id trigger_type now q)
    ]

-- Job.owner_user_id == user_id: NULL is equal to nothing.
abbrev pub owned_by : ℕ → Option ℕ → Bool
owned_by user_id none = false
owned_by user_id (some owner) = owner == user_id

-- crud.get_job
unfoldable pub get_job : ℕ → ℕ → Database → Option Job
get_job job_id owner_user_id db =
    first (λ job. job.id == job_id && owned_by owner_user_id job.owner_user_id) db.jobs

abbrev pub publish_all : List JobRun → List Command
publish_all [] = []
publish_all (run ∷ runs) = publish run ++ publish_all runs

abbrev pub arrows : List ℕ → String
arrows [] = ""
arrows (node ∷ []) = show node
arrows (node ∷ next ∷ rest) = joined (show node ∷ " -> " ∷ arrows (next ∷ rest) ∷ [])

-- The handler's answer: the error or the run, the commands sent, and the committed database.
pub record Reply (A : Type 0) : Type 0 where
  pub answer : Result HttpError A
  pub commands : List Command
  pub db : Database

-- An HTTPException leaves through the session dependency, which rolls back.
abbrev pub refuse : {A : Type 0} → HttpError → Database → Reply A
refuse e db = record { answer = err e; commands = []; db = db }

abbrev pub answer_prepared : Database → Result Failure Prepared → Reply JobRun
answer_prepared db (ok done) = record {
  answer = ok done.run;
  commands = publish_all done.runs_to_publish;
  db = done.db;
}
answer_prepared db (err (cycle nodes)) =
    refuse (conflict (joined ("job dependency cycle detected: " ∷ arrows nodes ∷ []))) db
answer_prepared db (err out_of_fuel) =
    refuse (record { status_code = 500; detail = "out of fuel" }) db

-- The depth of the recursion is at most one more than the number of dependency rows.
abbrev pub enough : Database → ℕ
enough db = length db.dependencies + 2

-- trigger_job
unfoldable pub trigger_job : ℕ → ℕ → Time → Database → Reply JobRun
unfolding get_job prepare_trigger_run
trigger_job job_id user_id now db = elim (get_job job_id user_id db) [
  | none ↦ refuse (not_found "job not found") db
  | some job ↦ answer_prepared db (
      prepare_trigger_run (enough db) now job_id manual []
        (record { runs_to_publish = []; db = db }))
]
