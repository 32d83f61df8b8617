-- ===== src/Api/Runs/Changes.antt =====
-- What the requests of backend/api/routers/runs.py that retry or cancel a run do.
use distributed_asynchronous.Prelude.{
  ℕ, ◌+◌, ◌≡◌, ◌⊎◌, refl, true, false, Option, none, some, [], arith, inl, inr, Bool-cases,
  Option-cases, if◌then◌else◌, Result, ok, err,
}
use distributed_asynchronous.Table.{first-by_key, key-by_key}
use distributed_asynchronous.Constants.{RunStatus, queued, retry, canceled, terminal, status_in}
use distributed_asynchronous.Models.{Time, JobRun, Database, run_by_id, new_run}
use distributed_asynchronous.Models.Progress.{
  IsValid, Progress, Progress-refl, Progress-trans, add_untimed-Progress,
}
use distributed_asynchronous.Store.Defs as Store
use distributed_asynchronous.Store.Progress.{cancel_run-Progress}
use distributed_asynchronous.Store.Finish.{cancel_run_lem}
use distributed_asynchronous.Dispatch.{create_run, publish}
use distributed_asynchronous.Queue.{enqueue_run, publish_cancel}
use distributed_asynchronous.Runner.Failure.{run_by_id-add_run}
use distributed_asynchronous.Api.Http.{HttpError}
use distributed_asynchronous.Api.Trigger.{Reply}
use distributed_asynchronous.Api.Runs.{is_owned, get_owned_run, get_run, retry_run, cancel_run}

pub get_owned_run_lem :
    (run_id user_id : ℕ) (db : Database)
    → IsValid db
    → get_owned_run run_id user_id db ≡ (elim (run_by_id run_id db) [
      | none ↦ none
      | some run ↦ if is_owned user_id db run then some run else none
    ])
unfolding get_owned_run run_by_id
get_owned_run_lem run_id user_id db v = ground (
  arith,
  first-by_key (λ (r : JobRun). r.id) 0 db.runs db.next_run_id run_id (is_owned user_id db) v,
)

-- A retry on request: a queued run of the same job, with the next attempt number, which is
-- published.
pub record Retried (run_id user_id : ℕ) (db : Database) (run : JobRun) (reply : Reply JobRun)
    : Type 0 where
  pub previous : JobRun
  pub owned : get_owned_run run_id user_id db ≡ some previous
  pub ended : status_in terminal previous.status ≡ true
  pub job_id : run.job_id ≡ previous.job_id
  pub attempt : run.attempt ≡ previous.attempt + 1
  pub status : run.status ≡ queued
  pub stored : run_by_id run.id reply.db ≡ some run
  pub published : reply.commands ≡ enqueue_run run.id
  pub progress : Progress db reply.db

-- Nothing was committed or sent: the user has no such run (404), or it has not ended (409).
abbrev pub Declined : (run_id user_id : ℕ) → Database → HttpError → Reply JobRun → Type 0
Declined run_id user_id db e reply =
    (reply.db ≡ db)
    × (reply.commands ≡ [])
    × (((e.status_code ≡ 404) × (get_owned_run run_id user_id db ≡ none))
        ⊎ ((e.status_code ≡ 409)
            × (run : JobRun) × (get_owned_run run_id user_id db ≡ some run)
            × (status_in terminal run.status ≡ false)))

abbrev pub Retries :
    (run_id user_id : ℕ) → Database → Result HttpError JobRun → Reply JobRun → Type 0
Retries run_id user_id db (ok run) reply = Retried run_id user_id db run reply
Retries run_id user_id db (err e) reply = Declined run_id user_id db e reply

-- In a database with valid run ids: a request to retry a run returns a stored and published queued
-- run of the same job with the next attempt number, where the run is the user's and has ended;
-- otherwise nothing is committed or sent, with 404 as the run is not the user's, or with 409 as it
-- has not ended.
pub retry_run-Retries :
    (run_id user_id : ℕ) (now : Time) (db : Database)
    → IsValid db
    → (let reply = retry_run run_id user_id now db in Retries run_id user_id db reply.answer reply)
unfolding retry_run create_run publish new_run
retry_run-Retries run_id user_id now db v = go (get_owned_run run_id user_id db) refl
  where
    again : JobRun → JobRun
    again run = new_run run.job_id retry queued (run.attempt + 1) none now db

    go :
        (o : Option JobRun)
        → get_owned_run run_id user_id db ≡ o
        → (let reply = retry_run run_id user_id now db in
            Retries run_id user_id db reply.answer reply)
    go none e = rw (e, retry_run) (refl, refl, inl (refl, e))
    go (some run) e = elim (Bool-cases (status_in terminal run.status)) [
      | inr live ↦ rw (e, retry_run, live) (refl, refl, inr (refl, run, e, live))
      | inl ended ↦
          rw (e, retry_run, ended)
            (record {
              previous = run;
              owned = e;
              ended = ended;
              job_id = refl;
              attempt = refl;
              status = refl;
              stored = run_by_id-add_run db (again run) v refl;
              published = refl;
              progress = add_untimed-Progress run.job_id retry queued (run.attempt + 1) now db;
            })
    ]

-- Why nothing is canceled: the run is not the user's, or it has ended at the first look, or at the update.
abbrev pub Uncancelable : (run_id user_id : ℕ) → (db mid : Database) → Type 0
Uncancelable run_id user_id db mid =
    (get_owned_run run_id user_id db ≡ none)
    ⊎ ((run : JobRun) × (get_owned_run run_id user_id db ≡ some run)
        × (status_in terminal run.status ≡ true))
    ⊎ ((run : JobRun) → run_by_id run_id mid ≡ some run → status_in terminal run.status ≡ true)

-- After a cancellation on request the user's run is canceled, and the message is sent that stops
-- its executor. An error has one of the reasons above and sends nothing, unless the run was canceled
-- and is no longer the user's. `mid` is the database at the update.
abbrev pub Cancels :
    (run_id user_id : ℕ) → (db mid : Database) → Result HttpError JobRun → Reply JobRun → Type 0
Cancels run_id user_id db mid (ok run) reply =
    (run_by_id run_id reply.db ≡ some run)
    × (is_owned user_id reply.db run ≡ true)
    × (run.status ≡ canceled)
    × (reply.commands ≡ publish_cancel run_id)
    × Progress db reply.db
Cancels run_id user_id db mid (err e) reply =
    (((reply.commands ≡ []) × Uncancelable run_id user_id db mid)
      ⊎ (get_owned_run run_id user_id reply.db ≡ none))
    × Progress db reply.db

inactive_terminal : (s : RunStatus) → status_in Store.active s ≡ false → status_in terminal s ≡ true
inactive_terminal s h = ground arith

-- Where the store's update matched nothing, the run has ended or is gone.
missed_terminal :
    (run_id : ℕ) (now : Time) (db : Database) (r : JobRun)
    → IsValid db
    → (Store.cancel_run run_id now db).0 ≡ false
    → run_by_id run_id db ≡ some r
    → status_in terminal r.status ≡ true
missed_terminal run_id now db r v missed found =
    let (answer, written) = cancel_run_lem run_id now db v in
    inactive_terminal r.status (ground (arith, answer, found, missed))

-- Where the store's update matched, the run with that id is canceled.
canceled_now :
    (run_id : ℕ) (now : Time) (db : Database) (r : JobRun)
    → IsValid db
    → (Store.cancel_run run_id now db).0 ≡ true
    → run_by_id run_id (Store.cancel_run run_id now db).1 ≡ some r
    → r.status ≡ canceled
unfolding run_by_id
canceled_now run_id now db r v done e = elim (Option-cases (run_by_id run_id db)) [
  | inl absent ↦ ground (arith, cancel_run_lem run_id now db v)
  | inr (s, found) ↦
      let same : s.id ≡ run_id = key-by_key (λ (x : JobRun). x.id) run_id db.runs s found in
      let (answer, written) = cancel_run_lem run_id now db v in ground (arith, written run_id)
]

answered :
    (run_id user_id : ℕ) (now : Time) (db mid : Database)
    → IsValid mid
    → Progress db (Store.cancel_run run_id now mid).1
    → (Store.cancel_run run_id now mid).0 ≡ true
    → (let db' = (Store.cancel_run run_id now mid).1 in
        let reply : Reply JobRun = record {
          answer = get_run run_id user_id db';
          commands = publish_cancel run_id;
          db = db';
        } in
        Cancels run_id user_id db mid reply.answer reply)
unfolding get_run
answered run_id user_id now db mid v p done = go (get_owned_run run_id user_id db') refl
  where
    db' : Database
    db' = (Store.cancel_run run_id now mid).1

    reply : Reply JobRun
    reply = record {
      answer = get_run run_id user_id db';
      commands = publish_cancel run_id;
      db = db';
    }

    go :
        (o : Option JobRun)
        → get_owned_run run_id user_id db' ≡ o
        → Cancels run_id user_id db mid reply.answer reply
    go none e = rw (e, get_run) (inr e, p)
    go (some run) e =
        let valid : IsValid db' = (cancel_run-Progress mid run_id now).valid v in
        let h = get_owned_run_lem run_id user_id db' valid in
        let (found, owned) : (run_by_id run_id db' ≡ some run) × (is_owned user_id db' run ≡ true) =
          ground arith in
        rw (e, get_run) (found, owned, canceled_now run_id now mid run v done found, refl, p)

-- A request to cancel a run, in a database with valid run ids, where other processes let the runs
-- progress between its look at the run and its update: it lets the runs progress; it returns the
-- user's run, which is canceled then, and sends the message that stops its executor; or it is an
-- error, which sends nothing as the run is not the user's, or has ended at the first look or by
-- the update, unless the run was canceled and is no longer the user's.
pub cancel_run-Cancels :
    (run_id user_id : ℕ) (now : Time) (meanwhile : Database → Database) (db : Database)
    → IsValid db
    → Progress db (meanwhile db)
    → (let reply = cancel_run run_id user_id now meanwhile db in
        Cancels run_id user_id db (meanwhile db) reply.answer reply)
unfolding cancel_run
cancel_run-Cancels run_id user_id now meanwhile db v p = go (get_owned_run run_id user_id db) refl
  where
    reply : Reply JobRun
    reply = cancel_run run_id user_id now meanwhile db

    q : Progress db (Store.cancel_run run_id now (meanwhile db)).1
    q = Progress-trans v p (cancel_run-Progress (meanwhile db) run_id now)

    go :
        (o : Option JobRun)
        → get_owned_run run_id user_id db ≡ o
        → Cancels run_id user_id db (meanwhile db) reply.answer reply
    go none e = rw (e, cancel_run) (inl (refl, inl e), Progress-refl db)
    go (some run) e = elim (Bool-cases (status_in terminal run.status)) [
      | inl ended ↦
          rw (e, cancel_run, ended) (inl (refl, inr (inl (run, e, ended))), Progress-refl db)
      | inr live ↦ elim (Bool-cases (Store.cancel_run run_id now (meanwhile db)).0) [
        | inl done ↦
            rw (e, cancel_run, live, done)
              (answered run_id user_id now db (meanwhile db) (p.valid v) q done)
        | inr missed ↦
            rw (e, cancel_run, live, missed)
              (
                inl (
                  refl,
                  inr (inr (λ r. missed_terminal run_id now (meanwhile db) r (p.valid v) missed)),
                ),
                q,
              )
      ]
    ]
