-- ===== src/Api/Jobs/Update/Effects.antt =====
-- What `update_job` of backend/api/crud.py stores.
use distributed_asynchronous.Prelude.{
  ℕ, ◌≡◌, ◌⊎◌, refl, ap, sym, subst, str_eq_iff, ==_iff, Option-cases, Bool, true, false, ◌∙◌,
  Option, none, some, List, String, arith, inl, inr, Bool-cases, ◌==◌, contains, dedup, All,
  if◌then◌else◌, Result, ok, err,
}
use mathlib.Core.Option
use distributed_asynchronous.Models.Json.{Fields}
use distributed_asynchronous.Api.Jobs.Update.Merged.{IsMerged, merged-IsMerged}
use distributed_asynchronous.Table.{update_where, by_key, key-by_key, by_key-update_where}
use distributed_asynchronous.Models.{Time, Job, Database, job_by_id}
use distributed_asynchronous.Store.Defs.{dependency_ids}
use distributed_asynchronous.Api.Jobs.{
  JobCreate, CrudError, name_exists, self_dependency, unknown_dependencies, invalid_job, is_valid,
  missing, validate_dependencies, set_dependencies,
}
use distributed_asynchronous.Api.Jobs.Create.{
  ValidJobs, IsOwned, missing-nil, dependency_ids-set_dependencies,
}
use distributed_asynchronous.Api.Jobs.Update.{
  JobUpdate, given_ids, or_empty, merged, set_columns, written, refused_ids, store_job,
  changed_text, changed_option, changed_bool, changed_number, write_changes, has_changes, refreshed,
  update_checked, update_job,
}

-- The columns of a job as the arguments of JobBase.
abbrev pub base_of : Job → List ℕ → JobCreate
base_of job ids = record {
  name = job.name;
  description = job.description;
  category = job.category;
  task_type = job.task_type;
  task_spec = job.task_spec;
  schedule_type = job.schedule_type;
  schedule_expr = job.schedule_expr;
  timezone = job.timezone;
  enabled = job.enabled;
  max_retries = job.max_retries;
  retry_backoff_sec = job.retry_backoff_sec;
  timeout_sec = job.timeout_sec;
  depends_on = ids;
}

-- The merged columns keep the name.
pub merged-name :
    (job : Job) (payload : JobUpdate) (p : JobCreate)
    → merged job payload ≡ some p
    → p.name ≡ job.name
unfolding merged
merged-name job payload p h = ground arith

abbrev pub new_ids : ℕ → Option (List ℕ) → Database → List ℕ
new_ids job_id none db = dependency_ids job_id db
new_ids job_id (some ids) db = dedup ids

abbrev pub FreshIds : Job → ℕ → Option (List ℕ) → Database → Type 0
FreshIds job owner none db = Unit
FreshIds job owner (some ids) db =
    (contains (dedup ids) job.id ≡ false) × All (IsOwned owner db) (dedup ids)

module _ (cron_is_valid : String → Bool) (differs : Fields → Fields → Bool) where
  -- The row holds the columns asked for; an object that Python finds equal to the stored one is not
  -- written.
  pub record HasColumns (job : Job) (p : JobCreate) (row : Job) : Type 0 where
    pub description : row.description ≡ p.description
    pub category : row.category ≡ p.category
    pub task_type : row.task_type ≡ p.task_type
    pub task_spec :
        row.task_spec ≡ (if differs job.task_spec p.task_spec then p.task_spec else job.task_spec)
    pub schedule_type : row.schedule_type ≡ p.schedule_type
    pub schedule_expr : row.schedule_expr ≡ p.schedule_expr
    pub timezone : row.timezone ≡ p.timezone
    pub enabled : row.enabled ≡ p.enabled
    pub max_retries : row.max_retries ≡ p.max_retries
    pub retry_backoff_sec : row.retry_backoff_sec ≡ p.retry_backoff_sec
    pub timeout_sec : row.timeout_sec ≡ p.timeout_sec

  -- What holds of a job after an update, and of the database that has it.
  pub record Updated (job : Job) (payload : JobUpdate) (owner : ℕ) (db : Database) (row : Job)
      (later : Database) : Type 0 where
    pub stored : job_by_id job.id later ≡ some row
    pub others : (a : ℕ) → (a == job.id) ≡ false → job_by_id a later ≡ job_by_id a db
    pub name : row.name ≡ job.name
    pub owner_user_id : row.owner_user_id ≡ job.owner_user_id
    pub last_scheduled_for : row.last_scheduled_for ≡ job.last_scheduled_for
    pub asked : JobCreate
    pub merges : IsMerged job payload asked
    pub valid : is_valid cron_is_valid asked ≡ true
    pub columns : HasColumns job asked row
    pub depends_on :
        (a : ℕ)
        → dependency_ids a later ≡ (
            if a == job.id
            then new_ids job.id (given_ids payload.depends_on) db
            else dependency_ids a db)
    pub fresh : FreshIds job owner (given_ids payload.depends_on) db
    pub runs : later.runs ≡ db.runs

  abbrev pub Updates :
      Job → JobUpdate → (owner : ℕ) → Database → Result CrudError (Job × Database) → Type 0
  Updates job payload owner db (ok (row, later)) = Updated job payload owner db row later
  Updates job payload owner db (err (name_exists name)) = ⊥
  Updates job payload owner db (err self_dependency) =
      contains (dedup (or_empty (given_ids payload.depends_on))) job.id ≡ true
  Updates job payload owner db (err (unknown_dependencies unknown)) =
      missing owner (dedup (or_empty (given_ids payload.depends_on))) db ≡ unknown
  Updates job payload owner db (err invalid_job) =
      FreshIds job owner (given_ids payload.depends_on) db
      × ((merged job payload ≡ none)
          ⊎ ((p : JobCreate) × IsMerged job payload p × (is_valid cron_is_valid p ≡ false)))

  text_changed : (seen new : String) → changed_text seen new seen ≡ new
  text_changed seen new = ground (arith, str_eq_iff seen new)

  option_changed : (seen new : Option String) → changed_option seen new seen ≡ new
  option_changed none none = refl
  option_changed none (some b) = refl
  option_changed (some a) none = refl
  option_changed (some a) (some b) = ground (arith, str_eq_iff a b)

  bool_changed : (seen new : Bool) → changed_bool seen new seen ≡ new
  bool_changed true true = refl
  bool_changed true false = refl
  bool_changed false true = refl
  bool_changed false false = refl

  number_changed : (seen new : ℕ) → changed_number seen new seen ≡ new
  number_changed seen new = ground (arith, ==_iff seen new)

  -- The row after the UPDATE, where it is still as it was read.
  abbrev row_of : JobCreate → Time → Job → Job
  row_of p now job =
      write_changes cron_is_valid differs job (written cron_is_valid differs p now job) job

  HasColumns-set :
      (job new : Job) (p : JobCreate)
      → new.description ≡ p.description
      → HasColumns job p (write_changes cron_is_valid differs job (set_columns p job) job)
  unfolding write_changes set_columns
  HasColumns-set job new p e = record {
    description = option_changed job.description p.description;
    category = option_changed job.category p.category;
    task_type = text_changed job.task_type p.task_type;
    task_spec = refl;
    schedule_type = text_changed job.schedule_type p.schedule_type;
    schedule_expr = option_changed job.schedule_expr p.schedule_expr;
    timezone = text_changed job.timezone p.timezone;
    enabled = bool_changed job.enabled p.enabled;
    max_retries = number_changed job.max_retries p.max_retries;
    retry_backoff_sec = number_changed job.retry_backoff_sec p.retry_backoff_sec;
    timeout_sec = number_changed job.timeout_sec p.timeout_sec;
  }

  -- Setting `updated_at` changes no other column.
  HasColumns-if :
      (b : Bool) (p : JobCreate) (now : Time) (job : Job)
      → HasColumns job p (
          write_changes cron_is_valid differs job
            (if b then record (set_columns p job) { updated_at = now } else set_columns p job)
            job)
  unfolding write_changes set_columns
  HasColumns-if false p now job = HasColumns-set job (set_columns p job) p refl
  HasColumns-if true p now job =
      let h = HasColumns-set job (set_columns p job) p refl in
      record {
        description = h.description;
        category = h.category;
        task_type = h.task_type;
        task_spec = h.task_spec;
        schedule_type = h.schedule_type;
        schedule_expr = h.schedule_expr;
        timezone = h.timezone;
        enabled = h.enabled;
        max_retries = h.max_retries;
        retry_backoff_sec = h.retry_backoff_sec;
        timeout_sec = h.timeout_sec;
      }

  store_job-stored :
      (job new : Job) (ids : Option (List ℕ)) (db : Database) (a : ℕ)
      → job_by_id job.id db ≡ some job
      → job_by_id a (store_job cron_is_valid differs job new ids db) ≡ (
          if a == job.id
          then some (write_changes cron_is_valid differs job new job)
          else job_by_id a db)
  unfolding store_job job_by_id set_dependencies write_changes
  store_job-stored job new ids db a found =
      stored ids ∙ elim (Option-cases (by_key (λ (j : Job). j.id) a db.jobs)) [
        | inl absent ↦ ground (arith, updated, found, ==_iff a job.id)
        | inr (j, there) ↦ ground (
          arith,
          updated,
          found,
          ==_iff a job.id,
          ==_iff j.id job.id,
          key-by_key (λ (x : Job). x.id) a db.jobs j there,
        )
      ]
    where
      rows : List Job
      rows =
          update_where (λ j. j.id == job.id) (write_changes cron_is_valid differs job new) db.jobs

      stored :
          (given : Option (List ℕ))
          → job_by_id a (store_job cron_is_valid differs job new given db)
            ≡ by_key (λ (j : Job). j.id) a rows
      stored none = refl
      stored (some xs) = refl

      updated :
          by_key (λ (j : Job). j.id) a rows
          ≡ Option.map
              (λ j. if j.id == job.id then write_changes cron_is_valid differs job new j else j)
              (by_key (λ (j : Job). j.id) a db.jobs)
      updated =
          by_key-update_where (λ (j : Job). j.id) (λ j. j.id == job.id)
            (write_changes cron_is_valid differs job new) a db.jobs (λ j. refl)

  store_job-dependencies :
      (job new : Job) (ids : Option (List ℕ)) (db : Database) (a : ℕ)
      → dependency_ids a (store_job cron_is_valid differs job new ids db)
        ≡ (if a == job.id then new_ids job.id ids db else dependency_ids a db)
  unfolding store_job dependency_ids
  store_job-dependencies job new none db a = ground arith
  store_job-dependencies job new (some ids) db a =
      dependency_ids-set_dependencies a job.id ids (record db {
        jobs =
            update_where (λ j. j.id == job.id) (write_changes cron_is_valid differs job new)
              db.jobs;
      })

  store_job-runs :
      (job new : Job) (ids : Option (List ℕ)) (db : Database)
      → (store_job cron_is_valid differs job new ids db).runs ≡ db.runs
  unfolding store_job set_dependencies
  store_job-runs job new none db = refl
  store_job-runs job new (some ids) db = refl

  pub refused_ids-none :
      (job : Job) (owner : ℕ) (ids : Option (List ℕ)) (db : Database)
      → ValidJobs db
      → refused_ids job owner ids db ≡ none
      → FreshIds job owner ids db
  unfolding validate_dependencies
  refused_ids-none job owner none db v h = tt
  refused_ids-none job owner (some ids) db v h =
      (ground arith, missing-nil owner (dedup ids) db v (ground arith))

  refused_ids-Updates :
      (job : Job) (payload : JobUpdate) (owner : ℕ) (db : Database) (ids : Option (List ℕ))
      (e : CrudError)
      → given_ids payload.depends_on ≡ ids
      → refused_ids job owner ids db ≡ some e
      → Updates job payload owner db (err e)
  unfolding validate_dependencies
  refused_ids-Updates job payload owner db none e given h = ground arith
  refused_ids-Updates job payload owner db (some ids) (name_exists name) given h = ground arith
  refused_ids-Updates job payload owner db (some ids) self_dependency given h = ground arith
  refused_ids-Updates job payload owner db (some ids) (unknown_dependencies unknown) given h =
      ground arith
  refused_ids-Updates job payload owner db (some ids) invalid_job given h = ground arith

  written-id :
      (p : JobCreate) (now : Time) (job : Job)
      → (written cron_is_valid differs p now job).id ≡ job.id
  unfolding written set_columns
  written-id p now job = ground arith

  written-Updated :
      (job : Job) (payload : JobUpdate) (p : JobCreate) (owner : ℕ) (now : Time) (db : Database)
      → job_by_id job.id db ≡ some job
      → IsMerged job payload p
      → is_valid cron_is_valid p ≡ true
      → FreshIds job owner (given_ids payload.depends_on) db
      → (let new = written cron_is_valid differs p now job in
          let later = store_job cron_is_valid differs job new (given_ids payload.depends_on) db in
          Updated job payload owner db (refreshed cron_is_valid differs new later) later)
  written-Updated job payload p owner now db found m valid fresh =
      let ids = given_ids payload.depends_on in
      let new = written cron_is_valid differs p now job in
      let later = store_job cron_is_valid differs job new ids db in
      let row = write_changes cron_is_valid differs job new job in
      let here : job_by_id job.id later ≡ some row =
        store_job-stored job new ids db job.id found ∙ ground arith in
      let same : refreshed cron_is_valid differs new later ≡ row =
        subst (λ i. (elim (job_by_id i later) [ none ↦ new | some x ↦ x ]) ≡ row)
          (sym (written-id p now job)) (ap (λ o. elim o [ none ↦ new | some x ↦ x ]) here) in
      subst (λ r. Updated job payload owner db r later) (sym same)
        (record {
          stored = here;
          others = λ a other. store_job-stored job new ids db a found ∙ rw other refl;
          name = unfold write_changes in refl;
          owner_user_id = unfold write_changes in refl;
          last_scheduled_for = unfold write_changes in refl;
          asked = p;
          merges = m;
          valid = valid;
          columns =
              unfold written in
              HasColumns-if (has_changes cron_is_valid differs job (set_columns p job)) p now job;
          depends_on = λ a. store_job-dependencies job new ids db a;
          fresh = fresh;
          runs = store_job-runs job new ids db;
        })

  update_checked-Updates :
      (job : Job) (payload : JobUpdate) (owner : ℕ) (now : Time) (db : Database)
      (refused : Option CrudError) (columns : Option JobCreate)
      → ValidJobs db
      → job_by_id job.id db ≡ some job
      → refused_ids job owner (given_ids payload.depends_on) db ≡ refused
      → merged job payload ≡ columns
      → Updates job payload owner db (
          update_checked cron_is_valid differs refused columns job
            (given_ids payload.depends_on)
            now
            db)
  update_checked-Updates job payload owner now db (some e) columns v found f m =
      refused_ids-Updates job payload owner db (given_ids payload.depends_on) e refl f
  update_checked-Updates job payload owner now db none none v found f m =
      (refused_ids-none job owner (given_ids payload.depends_on) db v f, inl m)
  update_checked-Updates job payload owner now db none (some p) v found f m =
      let fresh = refused_ids-none job owner (given_ids payload.depends_on) db v f in
      let merges = merged-IsMerged job payload p m in
      elim (Bool-cases (is_valid cron_is_valid p)) [
        | inl valid ↦ rw valid (written-Updated job payload p owner now db found merges valid fresh)
        | inr invalid ↦ rw invalid (fresh, inr (p, merges, invalid))
      ]

  -- In a database with valid job ids, where the job is stored as it was read: an update that succeeds
  -- stores under the job's id a row with its name, owner and last tick and with the columns that the
  -- payload asks for, member by member, which JobBase accepts; it changes no other job and no run,
  -- and sets the dependencies of this job alone, if any are given, each once, none of them the job
  -- itself and each a job of the user's. Otherwise the job itself is among them, or the ids named are
  -- those that are no job of the user's, or the dependencies are right and the columns asked for are
  -- null where they must not be or refused by JobBase.
  pub update_job-Updates :
      (job : Job) (payload : JobUpdate) (owner : ℕ) (now : Time) (db : Database)
      → ValidJobs db
      → job_by_id job.id db ≡ some job
      → Updates job payload owner db (update_job cron_is_valid differs job payload owner now db)
  unfolding update_job
  update_job-Updates job payload owner now db v found =
      update_checked-Updates job payload owner now db
        (refused_ids job owner (given_ids payload.depends_on) db) (merged job payload) v found refl
        refl
