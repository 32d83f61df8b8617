-- ===== src/System/Writes.antt =====
-- What the requests of backend/api that change users and jobs commit: each leaves the database as it
-- was, or commits one kind of write.
use distributed_asynchronous.Prelude.{
  ℕ, ◌≡◌, refl, String, Bool, true, ◌&&◌, Option, none, some, List, [], ◌∷◌, inl, inr, Bool-cases,
  str_eq, dedup,
}
use distributed_asynchronous.Models.Json.{Fields}
use distributed_asynchronous.Models.{Time, User, Job, Database}
use distributed_asynchronous.Table.{first, select}
use distributed_asynchronous.Auth.Crypto.{Crypto}
use distributed_asynchronous.Api.Users.{UserCreate, Settings}
use distributed_asynchronous.Api.Auth as Auth
use distributed_asynchronous.Api.Trigger.{owned_by, get_job}
use distributed_asynchronous.Api.Jobs.{
  JobCreate, CrudError, is_valid, missing, validate_dependencies, set_dependencies, new_job,
  add_job,
}
use distributed_asynchronous.Api.Jobs as Crud
use distributed_asynchronous.Api.Jobs.Handlers as Handlers
use distributed_asynchronous.Api.Jobs.Update.{
  JobUpdate, given_ids, merged, refused_ids, written, store_job, put_job, put_found, answer_update,
  update_checked, update_job,
}
use distributed_asynchronous.System.{committed}

module _ (P : Database → Type 0) (now : Time) (db : Database) (same : P db) where
  -- A job that is created is stored with its dependencies, which are jobs of the user's.
  pub create_job-writes :
      (describe_error : CrudError → String) (payload : JobCreate) (user_id : ℕ)
      → (missing user_id (dedup payload.depends_on) db ≡ []
          → P (
              set_dependencies db.next_job_id payload.depends_on
                (add_job (new_job payload user_id now db) db)))
      → P (Handlers.create_job describe_error payload user_id now db).db
  unfolding Handlers.create_job Crud.create_job validate_dependencies
  create_job-writes describe_error payload user_id write =
      go (first (λ j. owned_by user_id j.owner_user_id && str_eq j.name payload.name) db.jobs)
        (missing user_id (dedup payload.depends_on) db) refl refl
    where
      go :
          (o : Option Job) (ids : List ℕ)
          → first (λ j. owned_by user_id j.owner_user_id && str_eq j.name payload.name) db.jobs ≡ o
          → missing user_id (dedup payload.depends_on) db ≡ ids
          → P (Handlers.create_job describe_error payload user_id now db).db
      go (some j) ids e m = rw (e, Handlers.create_job, Crud.create_job) same
      go none [] e m =
          rw (e, Handlers.create_job, Crud.create_job, m, validate_dependencies) (write m)
      go none (d ∷ ds) e m =
          rw (e, Handlers.create_job, Crud.create_job, m, validate_dependencies) same

  pub delete_job-writes :
      (job_id user_id : ℕ)
      → ((job : Job) → get_job job_id user_id db ≡ some job → P (Handlers.delete_rows job.id db))
      → P (Handlers.delete_job job_id user_id db).db
  unfolding Handlers.delete_job
  delete_job-writes job_id user_id write = go (get_job job_id user_id db) refl
    where
      go :
          (o : Option Job)
          → get_job job_id user_id db ≡ o
          → P (Handlers.delete_job job_id user_id db).db
      go none e = rw (e, Handlers.delete_job) same
      go (some job) e = rw (e, Handlers.delete_job) (write job e)

  pub register-writes :
      (crypto : Crypto) (settings : Settings) (payload : UserCreate) (salt : List ℕ)
      → (select (Auth.is_taken payload) db.users ≡ []
          → P (Auth.add_user (Auth.new_user crypto settings payload salt now db.next_user_id) db))
      → P (committed (Auth.register crypto settings payload salt now db) db)
  unfolding Auth.register
  register-writes crypto settings payload salt write =
      go (select (Auth.is_taken payload) db.users) write
    where
      go :
          (rows : List User)
          → (rows ≡ []
              → P (
                  Auth.add_user
                    (Auth.new_user crypto settings payload salt now db.next_user_id)
                    db))
          → P (
              committed
                (Auth.register_unless crypto settings
                  (Auth.scalar_one_or_none rows)
                  payload
                  salt
                  now
                  db)
                db)
      go [] w = unfold Auth.scalar_one_or_none in w refl
      go (user ∷ []) w = unfold Auth.scalar_one_or_none in same
      go (user ∷ other ∷ rest) w = unfold Auth.scalar_one_or_none in same

  module _ (cron_is_valid : String → Bool) (differs : Fields → Fields → Bool) where
    -- An update that JobBase accepts is written over the user's job, and its dependencies, if any
    -- are given, are jobs of the user's.
    pub put_job-writes :
        (describe_error : CrudError → String) (job_id : ℕ) (payload : JobUpdate) (user_id : ℕ)
        → ((job : Job) (p : JobCreate)
            → get_job job_id user_id db ≡ some job
            → refused_ids job user_id (given_ids payload.depends_on) db ≡ none
            → merged job payload ≡ some p
            → is_valid cron_is_valid p ≡ true
            → P (
                store_job cron_is_valid differs job
                  (written cron_is_valid differs p now job)
                  (given_ids payload.depends_on)
                  db))
        → P (put_job cron_is_valid differs describe_error job_id payload user_id now db).db
    unfolding put_job update_job
    put_job-writes describe_error job_id payload user_id write =
        found (get_job job_id user_id db) refl
      where
        stored :
            (job : Job) (refused : Option CrudError) (columns : Option JobCreate)
            → get_job job_id user_id db ≡ some job
            → refused_ids job user_id (given_ids payload.depends_on) db ≡ refused
            → merged job payload ≡ columns
            → P
                (answer_update cron_is_valid differs describe_error
                  (update_checked cron_is_valid differs refused columns job
                    (given_ids payload.depends_on)
                    now
                    db)
                  db).db
        stored job (some e) columns e' f m = same
        stored job none none e' f m = same
        stored job none (some p) e' f m = elim (Bool-cases (is_valid cron_is_valid p)) [
          | inl valid ↦ rw valid (write job p e' f m valid)
          | inr invalid ↦ rw invalid same
        ]

        found :
            (o : Option Job)
            → get_job job_id user_id db ≡ o
            → P (put_found cron_is_valid differs describe_error o payload user_id now db).db
        found none e = same
        found (some job) e =
            stored job (refused_ids job user_id (given_ids payload.depends_on) db)
              (merged job payload) e refl refl
