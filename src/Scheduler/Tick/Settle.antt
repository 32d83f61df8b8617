-- ===== src/Scheduler/Tick/Settle.antt =====
-- backend/scheduler/main.py: what the transaction of a tick does to the table of jobs.
use distributed_asynchronous.Prelude.{
  ℕ, suc, ◌<◌, ◌≡◌, refl, sym, ap, ◌∙◌, subst, true, Option, none, some, List, [], ◌∷◌, map, arith,
  inl, inr, Bool-cases, ◌==◌, All, All-map, Result, ok, err, ◌>>=◌,
}
use distributed_asynchronous.Table.{update_where, Ascending}
use distributed_asynchronous.Models.{Time, Job, Database, add_run}
use distributed_asynchronous.Scheduler.Cron.{Croniter, Stop}
use distributed_asynchronous.Scheduler.Tick.Progress.{OnCommit}
use distributed_asynchronous.Scheduler.Tick.Once.{anchored}
use distributed_asynchronous.Scheduler.Tick.{
  tick_taken, create_tick, set_last_scheduled, job_due, schedule_job, schedule_jobs, is_scheduled,
}

abbrev pub ids : List Job → List ℕ
ids js = map (λ j. j.id) js

-- Rows with the id of one of the jobs `js` are that job.
abbrev pub Matches : List Job → Job → Type 0
Matches js j = All (λ h. (j.id == h.id) ≡ true → j ≡ h) js

pub OnCommit-bind :
    (P Q : Database → Type 0) (m : Result Stop (List ℕ × Database))
    (f : List ℕ × Database → Result Stop (List ℕ × Database))
    → OnCommit P m
    → ((ids : List ℕ) (d : Database) → P d → OnCommit Q (f (ids, d)))
    → OnCommit Q (m >>= f)
OnCommit-bind P Q (err e) f p k = tt
OnCommit-bind P Q (ok (ids, d)) f p k = k ids d p

pub OnCommit-map :
    (P Q : Database → Type 0) (m : Result Stop (List ℕ × Database))
    → ((d : Database) → P d → Q d)
    → OnCommit P m
    → OnCommit Q m
OnCommit-map P Q (err e) f p = tt
OnCommit-map P Q (ok (ids, d)) f p = f d p

module _ (get_next : Croniter) (now : Time) where
  -- The job after its tick, if one is due.
  abbrev pub settled : Job → Job
  settled j = elim (job_due get_next j now) [
    | err e ↦ j
    | ok none ↦ j
    | ok (some t) ↦ anchored t now j
  ]

  settled-id : (j : Job) → (settled j).id ≡ j.id
  settled-id j = ground arith

  settled-is_scheduled : (j : Job) → is_scheduled (settled j) ≡ is_scheduled j
  unfolding is_scheduled
  settled-is_scheduled j = ground arith

  jobs-create_tick :
      (h : Job) (t : Time) (db : Database)
      → (create_tick now h t db).1.jobs ≡ update_where (λ j. j.id == h.id) (anchored t now) db.jobs
  unfolding create_tick set_last_scheduled add_run
  jobs-create_tick h t db = elim (Bool-cases (tick_taken h.id t db)) [
    | inl taken ↦ rw taken refl
    | inr free ↦ rw free refl
  ]

  settled-eq-anchored :
      (h : Job) (t : Time) → job_due get_next h now ≡ ok (some t) → settled h ≡ anchored t now h
  settled-eq-anchored h t e = rw (e, settled) refl

  abbrev pub settle : Job → List Job → List Job
  settle h rows = update_where (λ j. j.id == h.id) settled rows

  update_settles :
      (h : Job) (t : Time) (rows : List Job)
      → job_due get_next h now ≡ ok (some t)
      → All (Matches (h ∷ [])) rows
      → update_where (λ j. j.id == h.id) (anchored t now) rows ≡ settle h rows
  unfolding update_where
  update_settles h t [] e m = refl
  update_settles h t (j ∷ rows) e m = elim (Bool-cases (j.id == h.id)) [
    | inl same ↦
        let here : anchored t now j ≡ settled j =
          subst (λ x. anchored t now x ≡ settled x) (sym (m.0.0 same))
            (sym (settled-eq-anchored h t e)) in
        rw (same, here) (ap (λ l. settled j ∷ l) (update_settles h t rows e m.1))
    | inr ne ↦ rw ne (ap (λ l. j ∷ l) (update_settles h t rows e m.1))
  ]

  -- Where nothing is due the job is settled as it is.
  settle-none :
      (h : Job) (rows : List Job)
      → job_due get_next h now ≡ ok none
      → All (Matches (h ∷ [])) rows
      → rows ≡ settle h rows
  unfolding update_where
  settle-none h [] e m = refl
  settle-none h (j ∷ rows) e m = elim (Bool-cases (j.id == h.id)) [
    | inl same ↦
        let due : job_due get_next j now ≡ ok none =
          subst (λ x. job_due get_next x now ≡ ok none) (sym (m.0.0 same)) e in
        let here : j ≡ settled j = rw (due, settled) refl in
        rw same (rw (← here) (ap (λ l. j ∷ l) (settle-none h rows e m.1)))
    | inr ne ↦ rw ne (ap (λ l. j ∷ l) (settle-none h rows e m.1))
  ]

  -- After `schedule_job` the rows of that job are settled, and it has an answer.
  schedule_job-settle :
      (h : Job) (db : Database)
      → All (Matches (h ∷ [])) db.jobs
      → OnCommit
          (λ d. (d.jobs ≡ settle h db.jobs) × ((o : Option Time) × (job_due get_next h now ≡ ok o)))
          (schedule_job get_next now h db)
  unfolding schedule_job
  schedule_job-settle h db m = go (job_due get_next h now) refl
    where
      go :
          (r : Result Stop (Option Time))
          → job_due get_next h now ≡ r
          → OnCommit
              (λ d.
                (d.jobs ≡ settle h db.jobs) × ((o : Option Time) × (job_due get_next h now ≡ ok o)))
              (schedule_job get_next now h db)
      go (err x) e = rw (e, schedule_job) tt
      go (ok none) e = rw (e, schedule_job) (settle-none h db.jobs e m, (none, refl))
      go (ok (some t)) e =
          rw (e, schedule_job)
            (jobs-create_tick h t db ∙ update_settles h t db.jobs e m, (some t, refl))

  -- The jobs settled one after the other.
  abbrev pub settle_all : List Job → List Job → List Job
  settle_all [] rows = rows
  settle_all (h ∷ js) rows = settle_all js (settle h rows)

  abbrev pub HasAnswer : Job → Type 0
  HasAnswer h = (o : Option Time) × (job_due get_next h now ≡ ok o)

  Matches-below :
      (j : Job) (lo : ℕ) (js : List Job) (hi : ℕ)
      → j.id < lo
      → Ascending (λ (j : Job). j.id) lo js hi
      → Matches js j
  Matches-below j lo [] hi lt a = tt
  Matches-below j lo (h ∷ js) hi lt a =
      ((λ e. ground arith), Matches-below j (suc h.id) js hi (omega arith) a.1)

  pub Matches-settle :
      (h : Job) (hi : ℕ) (js rows : List Job)
      → Ascending (λ (j : Job). j.id) (suc h.id) js hi
      → All (Matches js) rows
      → All (Matches js) (settle h rows)
  unfolding update_where
  Matches-settle h hi js [] a m = tt
  Matches-settle h hi js (j ∷ rows) a m = elim (Bool-cases (j.id == h.id)) [
    | inl same ↦
        let lt : (settled j).id < suc h.id = ground (arith, settled-id j) in
        rw same (Matches-below (settled j) (suc h.id) js hi lt a, Matches-settle h hi js rows a m.1)
    | inr ne ↦ rw ne (m.0, Matches-settle h hi js rows a m.1)
  ]

  pub schedule_jobs-settle_all :
      (lo : ℕ) (js : List Job) (hi : ℕ) (db : Database)
      → Ascending (λ (j : Job). j.id) lo js hi
      → All (Matches js) db.jobs
      → OnCommit
          (λ d. (d.jobs ≡ settle_all js db.jobs) × All HasAnswer js)
          (schedule_jobs get_next now js db)
  unfolding schedule_jobs
  schedule_jobs-settle_all lo [] hi db a m = (refl, tt)
  schedule_jobs-settle_all lo (h ∷ js) hi db a m =
      OnCommit-bind _ _ (schedule_job get_next now h db) _
        (schedule_job-settle h db (All-map _ _ db.jobs (λ j p. (p.0, tt)) m))
        λ ids d p.
          OnCommit-bind _ _ (schedule_jobs get_next now js d) _
            (schedule_jobs-settle_all (suc h.id) js hi d a.1
              (rw (p.0) (Matches-settle h hi js db.jobs a.1 (All-map _ _ db.jobs (λ j q. q.1) m))))
            λ more d' q. (q.0 ∙ ap (settle_all js) p.0, (p.1, q.1))
