-- ===== src/Scheduler/Tick/Again.antt =====
-- backend/scheduler/main.py: the transaction of a tick, run twice at one time.
use distributed_asynchronous.Prelude.{
  ℕ, suc, ◌≡◌, ◌⊎◌, refl, sym, subst, true, false, none, some, List, [], ◌∷◌, arith, inl, inr,
  Bool-cases, ◌==◌, contains, All, All-map, ok,
}
use distributed_asynchronous.Table.{
  select, update_where, Ascending, by_key, Ascending-select, All-select, found_self,
  contains-select,
}
use distributed_asynchronous.Models.{Time, Job, Database}
use distributed_asynchronous.Scheduler.Cron.{Croniter}
use distributed_asynchronous.Scheduler.Tick.Progress.{OnCommit}
use distributed_asynchronous.Scheduler.Tick.Once.{due_once}
use distributed_asynchronous.Scheduler.Tick.{
  job_due, schedule_job, schedule_jobs, schedule_due_jobs, is_scheduled,
}
use distributed_asynchronous.Scheduler.Tick.Settle.{
  ids, Matches, OnCommit-map, settled, settle, settle_all, HasAnswer, Matches-settle,
  schedule_jobs-settle_all,
}

module _ (get_next : Croniter) (now : Time) where
  settled_due :
      (h : Job) → HasAnswer get_next now h → job_due get_next (settled get_next now h) now ≡ ok none
  settled_due h (none, e) = rw (e, settled) e
  settled_due h (some t, e) = rw (e, settled) (due_once get_next now h t e)

  -- A scheduled job is still to be settled get_next now, or nothing is due for it.
  abbrev IsOpen : List Job → Job → Type 0
  IsOpen js j =
      is_scheduled j ≡ true → (contains (ids js) j.id ≡ true) ⊎ (job_due get_next j now ≡ ok none)

  still-IsOpen :
      (h : Job) (js : List Job) (j : Job) → (j.id == h.id) ≡ false → IsOpen (h ∷ js) j → IsOpen js j
  still-IsOpen h js j ne o s = elim (o s) [ inl listed ↦ inl (ground arith) | inr due ↦ inr due ]

  settle-IsOpen :
      (h : Job) (js rows : List Job)
      → HasAnswer get_next now h
      → All (Matches (h ∷ [])) rows
      → All (IsOpen (h ∷ js)) rows
      → All (IsOpen js) (settle get_next now h rows)
  unfolding update_where
  settle-IsOpen h js [] a m o = tt
  settle-IsOpen h js (j ∷ rows) a m o = elim (Bool-cases (j.id == h.id)) [
    | inl same ↦
        let due =
          subst (λ x. job_due get_next (settled get_next now x) now ≡ ok none) (sym (m.0.0 same))
            (settled_due h a) in
        rw same ((λ s. inr due), settle-IsOpen h js rows a m.1 o.1)
    | inr ne ↦ rw ne (still-IsOpen h js j ne o.0, settle-IsOpen h js rows a m.1 o.1)
  ]

  settle_all-IsOpen :
      (lo : ℕ) (js : List Job) (hi : ℕ) (rows : List Job)
      → Ascending (λ (j : Job). j.id) lo js hi
      → All (Matches js) rows
      → All (HasAnswer get_next now) js
      → All (IsOpen js) rows
      → All (IsOpen []) (settle_all get_next now js rows)
  settle_all-IsOpen lo [] hi rows a m h o = o
  settle_all-IsOpen lo (h ∷ js) hi rows a m answers o =
      settle_all-IsOpen (suc h.id) js hi (settle get_next now h rows) a.1
        (Matches-settle get_next now h hi js rows a.1 (All-map _ _ rows (λ j q. q.1) m)) answers.1
        (settle-IsOpen h js rows answers.0 (All-map _ _ rows (λ j q. (q.0, tt)) m) o)

  schedule_job-none :
      (j : Job) (db : Database)
      → job_due get_next j now ≡ ok none
      → schedule_job get_next now j db ≡ ok ([], db)
  unfolding schedule_job
  schedule_job-none j db due = rw (due, schedule_job) refl

  -- Where nothing is due the loop does nothing.
  schedule_jobs_none :
      (rows : List Job) (db : Database)
      → All (IsOpen []) rows
      → schedule_jobs get_next now (select is_scheduled rows) db ≡ ok ([], db)
  unfolding select schedule_jobs
  schedule_jobs_none [] db o = refl
  schedule_jobs_none (j ∷ rows) db o = elim (Bool-cases (is_scheduled j)) [
    | inl due ↦ elim (o.0 due) [
      | inl never ↦ cc
      | inr nothing ↦
          rw due (rw (schedule_job-none j db nothing, schedule_jobs_none rows db o.1) refl)
    ]
    | inr by_hand ↦ rw by_hand (schedule_jobs_none rows db o.1)
  ]

  -- The start: the jobs of the table that are scheduled are to be settled get_next now.
  module _ (db : Database) (v : Ascending (λ (j : Job). j.id) 0 db.jobs db.next_job_id) where
    abbrev js : List Job
    js = select is_scheduled db.jobs

    abbrev Found : Job → Type 0
    Found j = by_key (λ (j : Job). j.id) j.id db.jobs ≡ some j

    rows-Found : All Found db.jobs
    rows-Found =
        All-map _ _ db.jobs (λ j p. p.1) (found_self (λ (j : Job). j.id) 0 db.jobs db.next_job_id v)

    rows-Matches : All (Matches js) db.jobs
    rows-Matches =
        All-map _ _ db.jobs
          (λ j p.
            All-map _ _ js (λ h q e. ground arith)
              (All-select Found is_scheduled db.jobs rows-Found))
          rows-Found

    rows-IsOpen : All (IsOpen js) db.jobs
    rows-IsOpen =
        All-map _ _ db.jobs
          (λ j p s. inl (
            ground (
              arith,
              contains-select (λ (j : Job). j.id) 0 db.jobs db.next_job_id j.id is_scheduled v,
            )))
          rows-Found

    -- Where the job ids are valid: in the database that the transaction of a tick commits, a second
    -- transaction at the same time schedules nothing and changes nothing.
    pub schedule_due_jobs-once :
        OnCommit
          (λ d. schedule_due_jobs get_next now d ≡ ok ([], d))
          (schedule_due_jobs get_next now db)
    unfolding schedule_due_jobs
    schedule_due_jobs-once =
        OnCommit-map _ _ (schedule_jobs get_next now js db)
          (λ d p. schedule_jobs_none d.jobs d (
            rw (p.0) (
              settle_all-IsOpen 0 js db.next_job_id db.jobs ascending rows-Matches p.1
                rows-IsOpen)))
          (schedule_jobs-settle_all get_next now 0 js db.next_job_id db ascending rows-Matches)
      where
        ascending : Ascending (λ (j : Job). j.id) 0 js db.next_job_id
        ascending = Ascending-select (λ (j : Job). j.id) 0 db.jobs db.next_job_id is_scheduled v
