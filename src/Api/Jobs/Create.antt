-- ===== src/Api/Jobs/Create.antt =====
-- What `create_job` of backend/api/crud.py stores.
use mathlib.Core.List.{map-append, append-nil}
use distributed_asynchronous.Prelude.{
  ℕ, ◌+◌, ◌<◌, ◌≡◌, refl, Bool, true, false, not, ◌&&◌, ◌∙◌, ap, Option, none, some, List, [], ◌∷◌,
  ◌++◌, map, arith, inl, inr, Bool-cases, Option-cases, ◌==◌, contains, dedup, All, All-map,
  if◌then◌else◌, str_eq, Result, ok, err,
}
use distributed_asynchronous.Table.{
  select, first, by_key, by_key-append, by_key_absent, Ascending, contains-select, select-append,
}
use distributed_asynchronous.Models.{Time, Job, JobDependency, Database, job_by_id}
use distributed_asynchronous.Store.Defs.{dependency_ids}
use distributed_asynchronous.Api.Trigger.{owned_by}
use distributed_asynchronous.Api.Jobs.{
  JobCreate, CrudError, name_exists, self_dependency, invalid_job, unknown_dependencies, missing,
  validate_dependencies, dependency_rows, set_dependencies, new_job, add_job, create_job,
}

-- Job ids ascend along the table and lie below the next value of the sequence.
abbrev pub ValidJobs : Database → Type 0
ValidJobs db = Ascending (λ (j : Job). j.id) 0 db.jobs db.next_job_id

-- The foreign keys of the dependencies.
abbrev pub ValidDependencies : Database → Type 0
ValidDependencies db =
    All
      (λ (d : JobDependency). (d.job_id < db.next_job_id) × (d.depends_on_job_id < db.next_job_id))
      db.dependencies

abbrev pub ids_of : ℕ → List JobDependency → List ℕ
ids_of a rows = map (λ d. d.depends_on_job_id) (select (λ d. d.job_id == a) rows)

ids_of_others :
    (a i : ℕ) (rows : List JobDependency)
    → ids_of a (select (λ d. not (d.job_id == i)) rows) ≡ (if a == i then [] else ids_of a rows)
unfolding select
ids_of_others a i [] = ground arith
ids_of_others a i (d ∷ rows) = ground (arith, ids_of_others a i rows)

ids_of-dependency_rows :
    (a i next : ℕ) (ds : List ℕ)
    → ids_of a (dependency_rows i next ds) ≡ (if a == i then ds else [])
unfolding select
ids_of-dependency_rows a i next [] = ground arith
ids_of-dependency_rows a i next (d ∷ ds) = ground (arith, ids_of-dependency_rows a i (next + 1) ds)

-- `_set_dependencies` replaces the dependencies of its job and keeps those of the others.
pub dependency_ids-set_dependencies :
    (a i : ℕ) (ds : List ℕ) (db : Database)
    → dependency_ids a (set_dependencies i ds db)
      ≡ (if a == i then dedup ds else dependency_ids a db)
unfolding dependency_ids set_dependencies
dependency_ids-set_dependencies a i ds db =
    let old = select (λ (d : JobDependency). not (d.job_id == i)) db.dependencies in
    let added = dependency_rows i db.next_dependency_id (dedup ds) in
    let test = λ (d : JobDependency). d.job_id == a in
    ap (map (λ (d : JobDependency). d.depends_on_job_id)) (select-append test old added)
    ∙ map-append (λ (d : JobDependency). d.depends_on_job_id) (select test old) (select test added)
    ∙ rw
        (
          ids_of_others a i db.dependencies,
          ids_of-dependency_rows a i db.next_dependency_id (dedup ds),
        )
        (pick (a == i))
  where
    pick :
        (b : Bool)
        → (if b then [] else ids_of a db.dependencies) ++ (if b then dedup ds else [])
          ≡ (if b then dedup ds else ids_of a db.dependencies)
    pick true = refl
    pick false = append-nil _

-- The user has a job with that id.
abbrev pub IsOwned : ℕ → Database → ℕ → Type 0
IsOwned owner db d = (j : Job) × (job_by_id d db ≡ some j) × (owned_by owner j.owner_user_id ≡ true)

none_missing :
    (test : ℕ → Bool) (ids : List ℕ)
    → select (λ d. not (test d)) ids ≡ []
    → All (λ d. test d ≡ true) ids
unfolding select
none_missing test [] e = tt
none_missing test (d ∷ ds) e = elim (Bool-cases (test d)) [
  | inl present ↦ (present, none_missing test ds (ground arith))
  | inr absent ↦ ground arith
]

pub missing-nil :
    (owner : ℕ) (ids : List ℕ) (db : Database)
    → ValidJobs db
    → missing owner ids db ≡ []
    → All (IsOwned owner db) ids
unfolding missing job_by_id
missing-nil owner ids db v e = All-map _ _ ids here (none_missing _ ids e)
  where
    here :
        (d : ℕ)
        → contains
            (map
              (λ (j : Job). j.id)
              (select (λ j. contains ids j.id && owned_by owner j.owner_user_id) db.jobs))
            d
          ≡ true
        → IsOwned owner db d
    here d h = elim (Option-cases (by_key (λ (j : Job). j.id) d db.jobs)) [
      | inl absent ↦ ground (
        arith,
        contains-select (λ (j : Job). j.id) 0 db.jobs db.next_job_id d
            (λ j. contains ids j.id && owned_by owner j.owner_user_id) v,
      )
      | inr (j, found) ↦ (
        j,
        found,
        ground (
          arith,
          contains-select (λ (j : Job). j.id) 0 db.jobs db.next_job_id d
              (λ j. contains ids j.id && owned_by owner j.owner_user_id) v,
        ),
      )
    ]

-- What holds of a job that was created, and of the database that has it.
pub record Created (p : JobCreate) (owner : ℕ) (db : Database) (job : Job) (later : Database)
    : Type 0 where
  pub stored : job_by_id job.id later ≡ some job
  pub id : job.id ≡ db.next_job_id
  pub name : job.name ≡ p.name
  pub depends_on :
      (a : ℕ)
      → dependency_ids a later ≡ (if a == job.id then dedup p.depends_on else dependency_ids a db)
  pub owned : All (IsOwned owner db) (dedup p.depends_on)
  pub runs : later.runs ≡ db.runs

abbrev pub Creates : JobCreate → ℕ → Database → Result CrudError (Job × Database) → Type 0
Creates p owner db (ok (job, later)) = Created p owner db job later
Creates p owner db (err (name_exists name)) =
    (j : Job) × (first (λ job. owned_by owner job.owner_user_id && str_eq job.name p.name) db.jobs
      ≡ some j)
Creates p owner db (err self_dependency) = ⊥
Creates p owner db (err invalid_job) = ⊥
Creates p owner db (err (unknown_dependencies ids)) = missing owner (dedup p.depends_on) db ≡ ids

-- In a database with valid job ids: a job that is created is stored under the next id with its
-- dependencies, each once and each a job of the user's, and the other jobs keep theirs and the runs
-- stay; otherwise the user has a job of that name, or the ids named are the dependencies that are
-- no job of the user's.
pub create_job-Creates :
    (p : JobCreate) (owner : ℕ) (now : Time) (db : Database)
    → ValidJobs db
    → Creates p owner db (create_job p owner now db)
unfolding create_job validate_dependencies
create_job-Creates p owner now db v =
    go (first (λ job. owned_by owner job.owner_user_id && str_eq job.name p.name) db.jobs)
      (missing owner (dedup p.depends_on) db) refl refl
  where
    job : Job
    job = new_job p owner now db

    stored : job_by_id job.id (set_dependencies job.id p.depends_on (add_job job db)) ≡ some job
    stored =
        unfold job_by_id set_dependencies in
        ground (
          arith,
          by_key-append (λ (j : Job). j.id) db.next_job_id db.jobs job,
          by_key_absent (λ (j : Job). j.id) 0 db.jobs db.next_job_id db.next_job_id v,
        )

    created :
        missing owner (dedup p.depends_on) db ≡ []
        → Created p owner db job (set_dependencies job.id p.depends_on (add_job job db))
    created absent = record {
      stored = stored;
      id = refl;
      name = refl;
      depends_on = λ a.
          dependency_ids-set_dependencies a job.id p.depends_on (add_job job db)
          ∙ unfold dependency_ids in refl;
      owned = missing-nil owner (dedup p.depends_on) db v absent;
      runs = unfold set_dependencies in refl;
    }

    go :
        (o : Option Job) (ids : List ℕ)
        → first (λ job. owned_by owner job.owner_user_id && str_eq job.name p.name) db.jobs ≡ o
        → missing owner (dedup p.depends_on) db ≡ ids
        → Creates p owner db (create_job p owner now db)
    go (some j) ids e m = rw (e, create_job) (j, e)
    go none [] e m = rw (e, create_job, m, validate_dependencies) (created m)
    go none (d ∷ ds) e m = rw (e, create_job, m, validate_dependencies) m
