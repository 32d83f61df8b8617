-- ===== src/Api/Jobs/Acyclic.antt =====
-- The dependencies after `create_job` of backend/api/crud.py, ranked.
use distributed_asynchronous.Prelude.{
  ℕ, suc, ◌+◌, ◌≤◌, ◌<◌, ◌≡◌, true, List, [], ◌∷◌, arith, inl, inr, subst, Bool-cases, ◌==◌,
  contains, dedup, All, if◌then◌else◌, ok,
}
use distributed_asynchronous.Table.{select, by_key_absent}
use distributed_asynchronous.Models.{Time, Job, JobDependency, Database, job_by_id}
use distributed_asynchronous.Store.Defs.{dependency_ids}
use distributed_asynchronous.Api.Trigger.Stack.{IsRanked}
use distributed_asynchronous.Api.Jobs.{JobCreate, create_job}
use distributed_asynchronous.Api.Jobs.Create.{
  ValidJobs, ValidDependencies, ids_of, IsOwned, Created, Creates, create_job-Creates,
}

abbrev total : (ℕ → ℕ) → List ℕ → ℕ
total rank [] = 0
total rank (d ∷ ds) = rank d + total rank ds

total-le : (rank : ℕ → ℕ) (ds : List ℕ) (b : ℕ) → contains ds b ≡ true → rank b ≤ total rank ds
total-le rank [] b h = cc
total-le rank (d ∷ ds) b h = ground (arith, total-le rank ds b)

depends_below :
    (hi a b : ℕ) (rows : List JobDependency)
    → All (λ (d : JobDependency). (d.job_id < hi) × (d.depends_on_job_id < hi)) rows
    → contains (ids_of a rows) b ≡ true
    → b < hi
unfolding select
depends_below hi a b [] v h = cc
depends_below hi a b (d ∷ rows) v h = ground (arith, depends_below hi a b rows v.1, v.0)

depends_on_below :
    (a b : ℕ) (db : Database)
    → ValidDependencies db
    → contains (dependency_ids a db) b ≡ true
    → b < db.next_job_id
unfolding dependency_ids
depends_on_below a b db w h = depends_below db.next_job_id a b db.dependencies w h

owned_below :
    (owner b : ℕ) (db : Database) (ds : List ℕ)
    → ValidJobs db
    → All (IsOwned owner db) ds
    → contains ds b ≡ true
    → b < db.next_job_id
unfolding job_by_id
owned_below owner b db [] v h e = cc
owned_below owner b db (d ∷ ds) v h e = ground (
  arith,
  owned_below owner b db ds v h.1,
  h.0.1,
  by_key_absent (λ (j : Job). j.id) 0 db.jobs db.next_job_id d v,
)

-- In a database with valid job ids and dependencies, where some rank puts every dependency below
-- its job: after a job was created there is such a rank again.
pub create_job-IsRanked :
    (p : JobCreate) (owner : ℕ) (now : Time) (db : Database) (rank : ℕ → ℕ) (job : Job)
    (later : Database)
    → ValidJobs db
    → ValidDependencies db
    → IsRanked db rank
    → create_job p owner now db ≡ ok (job, later)
    → (above : ℕ → ℕ) × IsRanked later above
create_job-IsRanked p owner now db rank job later v w ranked e = (above, below)
  where
    made : Created p owner db job later
    made = subst (Creates p owner db) e (create_job-Creates p owner now db v)

    above : ℕ → ℕ
    above k = if k == job.id then suc (total rank (dedup p.depends_on)) else rank k

    below : (a b : ℕ) → contains (dependency_ids a later) b ≡ true → above b < above a
    below a b h = elim (Bool-cases (a == job.id)) [
      | inl new ↦ ground (
        arith,
        made.depends_on a,
        total-le rank (dedup p.depends_on) b,
        owned_below owner b db (dedup p.depends_on) v made.owned,
        made.id,
      )
      | inr old ↦ ground (arith, made.depends_on a, ranked a b, depends_on_below a b db w, made.id)
    ]
