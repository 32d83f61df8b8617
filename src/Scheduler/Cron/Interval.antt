-- ===== src/Scheduler/Cron/Interval.antt =====
-- backend/scheduler/cron.py: the tick of an interval schedule in closed form.
use native.Mathlib.Nat.{add-zero, div-eq_of_lt, div-eq-sub-div}
use distributed_asynchronous.Prelude.{
  zero, suc, ◌+◌, ◌-◌, ◌*◌, ◌/◌, ◌≤◌, ◌<◌, ◌≡◌, true, String, none, some, arith, inl, inr,
  Bool-cases, ltb, if◌then◌else◌, ok,
}
use distributed_asynchronous.Constants.ScheduleType
use distributed_asynchronous.Models.{Time, seconds}
use distributed_asynchronous.Scheduler.Cron.{
  Croniter, isdigit, int, max_time, next_run_time, latest_due, due_tick,
}

module _ (get_next : Croniter) (e tz : String) (digits : isdigit e ≡ true)
    (positive : 0 < int e) where
  abbrev step : Time
  step = seconds (int e)

  next-interval :
      (t : Time)
      → t + step ≤ max_time
      → next_run_time get_next ScheduleType.interval (some e) tz t ≡ ok (some (t + step))
  unfolding next_run_time
  next-interval t fits = ground arith

  step_pos : 0 < step
  step_pos = omega arith

  -- The distance from `tick` to the last tick by `now`.
  abbrev behind : (tick now : Time) → Time
  behind tick now = (now - tick) / step * step

  behind_small : (tick now : Time) → now < tick + step → behind tick now ≡ 0
  behind_small tick now h =
      rw (div-eq_of_lt {n = now - tick} {m = step} (omega (arith, step_pos))) (omega arith)

  behind-step :
      (tick now : Time)
      → tick + step ≤ now
      → tick + behind tick now ≡ tick + step + behind (tick + step) now
  behind-step tick now h =
      let same : now - tick - step ≡ now - (tick + step) = omega arith in
      rw (div-eq-sub-div {m = step} {n = now - tick} step_pos (omega arith), same) (omega arith)

  latest_due-interval :
      (fuel tick now : Time)
      → tick ≤ now
      → now < tick + fuel
      → now + step ≤ max_time
      → latest_due get_next fuel ScheduleType.interval (some e) tz tick now
        ≡ ok (some (tick + behind tick now))
  unfolding latest_due
  latest_due-interval zero tick now le enough fits = absurd (omega arith)
  latest_due-interval (suc fuel) tick now le enough fits =
      elim (Bool-cases (ltb now (tick + step))) [
        | inl early ↦ rw (
          next-interval tick (omega (arith, le, fits)),
          latest_due,
          early,
          behind_small tick now (ground arith),
          add-zero,
        )
        | inr due ↦
            rw
              (
                next-interval tick (omega (arith, le, fits)),
                latest_due,
                due,
                behind-step tick now (ground arith),
              )
              (latest_due-interval fuel (tick + step) now (ground arith) (omega (arith, step_pos))
                fits)
      ]

  -- For an interval schedule of a positive number of seconds in digits, where one interval after
  -- `base` and one after `now` is no later than datetime.max: nothing is due before the
  -- first interval after `base` has passed, and then `due_tick` returns the last instant by `now`
  -- that is a whole number of intervals after `base`.
  pub due_tick-interval :
      (base now : Time)
      → base + step ≤ max_time
      → now + step ≤ max_time
      → due_tick get_next ScheduleType.interval (some e) tz base now
        ≡ ok (if ltb now (base + step) then none else some (base + (now - base) / step * step))
  unfolding due_tick
  due_tick-interval base now first_fits fits = elim (Bool-cases (ltb now (base + step))) [
    | inl early ↦ rw (next-interval base first_fits, due_tick, early)
    | inr due ↦
        rw (next-interval base first_fits, due_tick, due, behind-step base now (ground arith))
          (latest_due-interval (now - (base + step) + 1) (base + step) now (ground arith)
            (ground arith) fits)
  ]
