-- ===== src/Api/Runs/Listing.antt =====
-- What the requests of backend/api/routers/runs.py for lists of runs or log lines answer.
use distributed_asynchronous.Prelude.{
  ℕ, ◌-◌, min, ◌≡◌, refl, Bool, true, ◌&&◌, ◌==◌, Option, none, some, String, List, [], ◌∷◌, arith,
  inl, inr, Bool-cases, All, length, take, drop, Result, ok, err,
}
use distributed_asynchronous.Table.{
  select, order_by, length-take, length-drop, length-order_by, All-take, All-drop, All-order_by,
  IsSorted, IsSorted-take, IsSorted-drop, order_by-IsSorted,
}
use distributed_asynchronous.Models.{JobRun, JobRunLog, Database}
use distributed_asynchronous.Api.Http.{HttpError}
use distributed_asynchronous.Api.Runs.{
  is_owned, has_status, is_newer, list_runs, is_earlier, get_run_logs, get_owned_run,
}

select_passes :
    {A : Type 0} (test : A → Bool) (xs : List A) → All (λ x. test x ≡ true) (select test xs)
unfolding select
select_passes test [] = tt
select_passes test (x ∷ xs) = elim (Bool-cases (test x)) [
  | inl e ↦ rw e (e, select_passes test xs)
  | inr e ↦ rw e (select_passes test xs)
]

-- A page of a listing: rows of the table that pass the test, in order, and as many of them as there
-- are from the offset on, up to the limit.
abbrev pub IsPage :
    {A : Type 0}
    → (test : A → Bool) (before : A → A → Bool) (limit offset : ℕ) (table rows : List A) → Type 0
IsPage test before limit offset table rows =
    All (λ x. test x ≡ true) rows
    × IsSorted before rows
    × (length rows ≡ min limit (length (select test table) - offset))

listed-IsPage :
    {A : Type 0} (test : A → Bool) (before : A → A → Bool) (limit offset : ℕ) (xs : List A)
    → IsSorted before (order_by before (select test xs))
    → IsPage test before limit offset xs
        (take limit (drop offset (order_by before (select test xs))))
listed-IsPage test before limit offset xs h = (
  All-take _ limit _ (All-drop _ offset _ (All-order_by _ before _ (select_passes test xs))),
  IsSorted-take before limit _ (IsSorted-drop before offset _ h),
  omega (
    arith,
    length-take limit (drop offset (order_by before (select test xs))),
    length-drop offset (order_by before (select test xs)),
    length-order_by before (select test xs),
  ),
)

-- The list of runs is a page of the runs of the user's jobs with the status asked for, the newest
-- first: as many as there are from the offset on, up to the limit.
pub list_runs-IsPage :
    (status_filter : Option String) (limit offset user_id : ℕ) (db : Database)
    → IsPage
        (λ run. is_owned user_id db run && has_status status_filter run)
        is_newer
        limit
        offset
        db.runs
        (list_runs status_filter limit offset user_id db)
unfolding list_runs
list_runs-IsPage status_filter limit offset user_id db =
    listed-IsPage _ is_newer limit offset db.runs
      (order_by-IsSorted is_newer (λ x y e. ground arith) (λ x y z e h. ground arith) _)

abbrev pub LogPage :
    (run_id limit offset user_id : ℕ) → Database → Result HttpError (List JobRunLog) → Type 0
LogPage run_id limit offset user_id db (ok rows) =
    IsPage (λ row. row.run_id == run_id) is_earlier limit offset db.logs rows
LogPage run_id limit offset user_id db (err e) =
    (e.status_code ≡ 404) × (get_owned_run run_id user_id db ≡ none)

-- The answer to a request for the log of a run is the page of the lines of that run, by time and
-- then by id, or 404 where the run is not the user's.
pub get_run_logs-LogPage :
    (run_id limit offset user_id : ℕ) (db : Database)
    → LogPage run_id limit offset user_id db (get_run_logs run_id limit offset user_id db)
unfolding get_run_logs
get_run_logs-LogPage run_id limit offset user_id db = go (get_owned_run run_id user_id db) refl
  where
    go :
        (o : Option JobRun)
        → get_owned_run run_id user_id db ≡ o
        → LogPage run_id limit offset user_id db (get_run_logs run_id limit offset user_id db)
    go none e = rw (e, get_run_logs) (refl, e)
    go (some run) e =
        rw (e, get_run_logs)
          (listed-IsPage _ is_earlier limit offset db.logs
            (order_by-IsSorted is_earlier (λ x y h. ground arith) (λ x y z h k. ground arith) _))
