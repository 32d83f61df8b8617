-- ===== src/Api/Jobs/Handlers/Delete.antt =====
-- What the request of backend/api/routers/jobs.py that deletes a job removes.
use distributed_asynchronous.Prelude.{
  ℕ, ◌≡◌, refl, Bool, true, not, ◌&&◌, Option, none, some, List, [], ◌∷◌, arith, inl, inr,
  Bool-cases, Option-cases, ◌==◌, contains, if◌then◌else◌, Result, ok, err, subst, sym,
}
use distributed_asynchronous.Table.{
  select, first, by_key, by_key-select, key-by_key, contains-select,
}
use distributed_asynchronous.Models.{Job, JobDependency, JobRun, Database, run_by_id, job_by_id}
use distributed_asynchronous.Models.Progress.{IsValid, Progress, Progress-of_select}
use distributed_asynchronous.Store.Defs.{dependency_ids}
use distributed_asynchronous.Api.Http.{HttpError}
use distributed_asynchronous.Api.Trigger.{owned_by}
use distributed_asynchronous.Api.Trigger.{get_job as find_job}
use distributed_asynchronous.Api.Jobs.Create.{ValidJobs, ids_of}
use distributed_asynchronous.Api.Jobs.Handlers.{delete_rows, delete_job}

ids_of_rest :
    (a b i : ℕ) (rows : List JobDependency)
    → contains
        (ids_of a (select (λ d. not (d.job_id == i) && not (d.depends_on_job_id == i)) rows))
        b
      ≡ (contains (ids_of a rows) b && not (a == i) && not (b == i))
unfolding select
ids_of_rest a b i [] = refl
ids_of_rest a b i (d ∷ rows) = ground (arith, ids_of_rest a b i rows)

first_passes :
    {A : Type 0} → (test : A → Bool) (xs : List A) (x : A) → first test xs ≡ some x → test x ≡ true
unfolding first
first_passes test [] x e = cc
first_passes test (y ∷ ys) x e = elim (Bool-cases (test y)) [
  | inl h ↦ ground arith
  | inr h ↦ ground (arith, first_passes test ys x)
]

find_job-id :
    (job_id user_id : ℕ) (db : Database) (job : Job)
    → find_job job_id user_id db ≡ some job
    → job.id ≡ job_id
unfolding find_job
find_job-id job_id user_id db job e =
    let h : (job.id == job_id && owned_by user_id job.owner_user_id) ≡ true =
      first_passes (λ (j : Job). j.id == job_id && owned_by user_id j.owner_user_id) db.jobs job
        e in
    ground arith

select-same :
    {A : Type 0}
    → (s t : A → Bool) (xs : List A) → ((x : A) → s x ≡ t x)
    → select s xs ≡ select t xs
unfolding select
select-same s t [] h = refl
select-same s t (x ∷ xs) h = rw (h x, select-same s t xs h) refl

-- The job is gone, with its runs, their logs and with the dependencies on either side; everything else stays.
pub record Deleted (job_id : ℕ) (db later : Database) : Type 0 where
  pub jobs : (k : ℕ) → job_by_id k later ≡ (if k == job_id then none else job_by_id k db)
  pub dependencies :
      (a b : ℕ)
      → contains (dependency_ids a later) b
        ≡ (contains (dependency_ids a db) b && not (a == job_id) && not (b == job_id))
  pub runs :
      (i : ℕ)
      → run_by_id i later ≡ (elim (run_by_id i db) [
        | none ↦ none
        | some r ↦ if r.job_id == job_id then none else some r
      ])
  pub users : later.users ≡ db.users
  pub logs :
      later.logs
      ≡ select
          (λ l. elim (run_by_id l.run_id db) [ none ↦ true | some r ↦ not (r.job_id == job_id) ])
          db.logs
  pub progress : Progress db later

delete_rows-Deleted :
    (job_id : ℕ) (db : Database)
    → IsValid db
    → ValidJobs db
    → Deleted job_id db (delete_rows job_id db)
unfolding delete_rows job_by_id run_by_id dependency_ids
delete_rows-Deleted job_id db v w = record {
  jobs = λ k. elim (Option-cases (by_key (λ (j : Job). j.id) k db.jobs)) [
    | inl absent ↦ ground (arith, found k)
    | inr (j, here) ↦ ground (arith, found k, key-by_key (λ (x : Job). x.id) k db.jobs j here)
  ];
  dependencies = λ a b. ids_of_rest a b job_id db.dependencies;
  runs = λ i. ground (
    arith,
    by_key-select (λ (r : JobRun). r.id) 0 db.runs db.next_run_id i (λ r. not (r.job_id == job_id))
        v,
  );
  users = refl;
  logs = select-same _ _ db.logs (λ l. ground (
    arith,
    contains-select (λ (r : JobRun). r.id) 0 db.runs db.next_run_id l.run_id
        (λ r. r.job_id == job_id) v,
  ));
  progress = Progress-of_select db _ (λ r. not (r.job_id == job_id)) refl refl v;
}
  where
    found :
        (k : ℕ)
        → by_key (λ (j : Job). j.id) k (select (λ j. not (j.id == job_id)) db.jobs)
          ≡ (elim (by_key (λ (j : Job). j.id) k db.jobs) [
            | none ↦ none
            | some j ↦ (if not (j.id == job_id) then some j else none)
          ])
    found k =
        by_key-select (λ (j : Job). j.id) 0 db.jobs db.next_job_id k (λ j. not (j.id == job_id)) w

abbrev pub Deletes :
    (job_id user_id : ℕ) → Database → Result HttpError (Unit {0}) → Database → Type 0
Deletes job_id user_id db (ok u) later =
    (job : Job) × (find_job job_id user_id db ≡ some job) × Deleted job_id db later
Deletes job_id user_id db (err e) later =
    (e.status_code ≡ 404) × (find_job job_id user_id db ≡ none) × (later ≡ db)

-- In a database with valid run and job ids: a request to delete a job removes the job if it is the
-- user's, with its runs and their logs and the dependencies on it and of it, and no other job, run, log,
-- dependency or user; otherwise it answers
-- with 404 and changes nothing.
pub delete_job-Deletes :
    (job_id user_id : ℕ) (db : Database)
    → IsValid db
    → ValidJobs db
    → (let reply = delete_job job_id user_id db in Deletes job_id user_id db reply.answer reply.db)
unfolding delete_job
delete_job-Deletes job_id user_id db v w = go (find_job job_id user_id db) refl
  where
    go :
        (o : Option Job)
        → find_job job_id user_id db ≡ o
        → (let reply = delete_job job_id user_id db in
            Deletes job_id user_id db reply.answer reply.db)
    go none e = rw (e, delete_job) (refl, e, refl)
    go (some job) e =
        rw (e, delete_job)
          (
            job,
            e,
            subst (λ i. Deleted job_id db (delete_rows i db))
                (sym (find_job-id job_id user_id db job e)) (delete_rows-Deleted job_id db v w),
          )
