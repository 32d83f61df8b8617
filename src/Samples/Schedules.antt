-- ===== src/Samples/Schedules.antt =====
-- The theorems on schedules, queues and the scheduler's tick, at concrete inputs.
use distributed_asynchronous.Prelude.{
  dedup, contains-dedup, occurrences, occurrences-dedup, ◌∙◌, ◌≤◌, ℕ, ◌+◌, ◌-◌, ◌*◌, ◌/◌, ◌<◌, ◌≡◌,
  refl, inl, inr, Bool-cases, Bool, true, false, ◌&&◌, Option, none, some, List, [], ◌∷◌, ◌++◌,
  arith, ltb, ◌==◌, if◌then◌else◌, contains, ok,
}
use distributed_asynchronous.Constants.{queued}
use distributed_asynchronous.Constants.ScheduleType
use distributed_asynchronous.Models.{Time, seconds}
use distributed_asynchronous.Scheduler.Cron.{max_time, Croniter, isdigit, int, due_tick}
use distributed_asynchronous.Scheduler.Cron.Latest.{IsStrict, IsDue, due_tick-IsDue}
use distributed_asynchronous.Scheduler.Cron.Interval.{due_tick-interval}
use distributed_asynchronous.Scheduler.Tick.{schedule_due_jobs}
use distributed_asynchronous.Scheduler.Tick.Progress.{OnCommit}
use distributed_asynchronous.Scheduler.Tick.Again.{schedule_due_jobs-once}
use distributed_asynchronous.Queue.{promote_script}
use distributed_asynchronous.Queue.Server.{Redis, is_due}
use distributed_asynchronous.Queue.Promote.{perform_all, promote_script_lem}
use distributed_asynchronous.Samples.{one_run}

-- A croniter for expressions that fire every minute after the given time.
abbrev pub every_minute : Croniter
every_minute expr tz t = some (t + 60_000_000)

every_minute-IsStrict : IsStrict every_minute
every_minute-IsStrict expr tz t u e = ground arith

due_tick_example :
    IsDue every_minute ScheduleType.cron
      (some "* * * * *")
      "UTC"
      0
      150_000_000
      (due_tick every_minute ScheduleType.cron (some "* * * * *") "UTC" 0 150_000_000)
due_tick_example =
    due_tick-IsDue every_minute ScheduleType.cron (some "* * * * *") "UTC" every_minute-IsStrict 0
      150_000_000

sixty_digits : isdigit "60" ≡ true
unfolding isdigit
sixty_digits = refl

sixty_pos : 0 < int "60"
unfolding int
sixty_pos = omega arith

sixty_fits : 0 + seconds (int "60") ≤ max_time
unfolding int
sixty_fits = omega arith

later_fits : 150_000_000 + seconds (int "60") ≤ max_time
unfolding int
later_fits = omega arith

due_tick-interval_example :
    due_tick every_minute ScheduleType.interval (some "60") "UTC" 0 150_000_000
    ≡ ok (
        if ltb 150_000_000 (0 + seconds (int "60"))
        then none
        else some (0 + (150_000_000 - 0) / seconds (int "60") * seconds (int "60")))
due_tick-interval_example =
    due_tick-interval every_minute "60" "UTC" sixty_digits sixty_pos 0 150_000_000 sixty_fits
      later_fits

-- A Redis server that keeps the stream, and the delayed runs in the order in which they came.
abbrev zscore_in : List (ℕ × Time) → ℕ → Option Time
zscore_in [] k = none
zscore_in ((r, t) ∷ rest) k = if r == k then some t else zscore_in rest k

abbrev without : ℕ → List (ℕ × Time) → List (ℕ × Time)
without r [] = []
without r ((k, t) ∷ rest) = if k == r then without r rest else (k, t) ∷ without r rest

abbrev keys : List (ℕ × Time) → List ℕ
keys [] = []
keys ((k, t) ∷ rest) = k ∷ keys rest

-- The members that `test` holds of.
abbrev members : (ℕ → Bool) → List ℕ → List ℕ
members test [] = []
members test (k ∷ ks) = let rest = members test ks in if test k then k ∷ rest else rest

contains-members :
    (test : ℕ → Bool) (ks : List ℕ) (k : ℕ)
    → contains (members test ks) k ≡ (contains ks k && test k)
contains-members test [] k = refl
contains-members test (j ∷ ks) k = ground (arith, contains-members test ks k)

absent : (s : List (ℕ × Time)) (k : ℕ) → contains (keys s) k ≡ false → zscore_in s k ≡ none
absent [] k e = refl
absent ((j, t) ∷ s) k e = ground (arith, absent s k)

pub zscore-without :
    (r : ℕ) (s : List (ℕ × Time)) (k : ℕ)
    → zscore_in (without r s) k ≡ (if r == k then none else zscore_in s k)
zscore-without r [] k = ground arith
zscore-without r ((j, t) ∷ s) k = ground (arith, zscore-without r s k)

pub zscore-put :
    (r : ℕ) (t : Time) (s : List (ℕ × Time)) (k : ℕ)
    → zscore_in ((r, t) ∷ without r s) k ≡ (if r == k then some t else zscore_in s k)
zscore-put r t s k = ground (arith, zscore-without r s k)

pub due_members :
    (s : List (ℕ × Time)) (now : Time) (k : ℕ)
    → contains (members (λ j. is_due now (zscore_in s j)) (keys s)) k ≡ is_due now (zscore_in s k)
due_members s now k = elim (Bool-cases (contains (keys s) k)) [
  | inl here ↦ rw (contains-members (λ j. is_due now (zscore_in s j)) (keys s) k, here) refl
  | inr gone ↦
      rw (contains-members (λ j. is_due now (zscore_in s j)) (keys s) k, gone, absent s k gone) refl
]

abbrev pub small : Redis
small = record {
  State = List ℕ × List (ℕ × Time);
  stream = λ s. s.0;
  zscore = λ s k. zscore_in s.1 k;
  zrangebyscore = λ s now. dedup (members (λ j. is_due now (zscore_in s.1 j)) (keys s.1));
  xadd = λ s r. (s.0 ++ r ∷ [], s.1);
  zadd = λ s r t. (s.0, (r, t) ∷ without r s.1);
  zrem = λ s r. (s.0, without r s.1);
  stream-xadd = λ s r. refl;
  zscore-xadd = λ s r k. refl;
  stream-zadd = λ s r t. refl;
  zscore-zadd = λ s r t k. zscore-put r t s.1 k;
  stream-zrem = λ s r. refl;
  zscore-zrem = λ s r k. zscore-without r s.1 k;
  contains-zrangebyscore = λ s now k.
      contains-dedup (members (λ j. is_due now (zscore_in s.1 j)) (keys s.1)) k
      ∙ due_members s.1 now k;
  zrangebyscore_once =
      λ s now k. occurrences-dedup k (members (λ j. is_due now (zscore_in s.1 j)) (keys s.1));
}

-- Run 4 is in the stream, run 1 is due and run 2 is not.
abbrev pub delayed : List ℕ × List (ℕ × Time)
delayed = (4 ∷ [], (1, 10) ∷ (2, 30) ∷ [])

promote_script_example :
    (small.stream (perform_all small (promote_script (small.zrangebyscore delayed 20)) delayed)
      ≡ 4 ∷ small.zrangebyscore delayed 20)
    × ((k : ℕ)
        → occurrences k (
            small.stream
              (perform_all small (promote_script (small.zrangebyscore delayed 20)) delayed))
          ≡ occurrences k (4 ∷ []) + (if is_due 20 (small.zscore delayed k) then 1 else 0))
    × ((k : ℕ)
        → small.zscore
            (perform_all small (promote_script (small.zrangebyscore delayed 20)) delayed)
            k
          ≡ (if is_due 20 (small.zscore delayed k) then none else small.zscore delayed k))
promote_script_example = promote_script_lem small delayed 20

schedule_due_jobs_example :
    OnCommit
      (λ d. schedule_due_jobs every_minute 150_000_000 d ≡ ok ([], d))
      (schedule_due_jobs every_minute 150_000_000 (one_run queued))
schedule_due_jobs_example =
    schedule_due_jobs-once every_minute 150_000_000 (one_run queued) (omega arith)
