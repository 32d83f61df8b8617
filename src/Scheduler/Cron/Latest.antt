-- ===== src/Scheduler/Cron/Latest.antt =====
-- backend/scheduler/cron.py: which tick `due_tick` finds.
use distributed_asynchronous.Prelude.{
  zero, suc, ◌+◌, ◌-◌, ◌≤◌, ◌<◌, ◌≡◌, ◌≢◌, ◌⊎◌, refl, false, String, Option, none, some, arith, inl,
  inr, Bool-cases, ltb, Result, ok, err,
}
use distributed_asynchronous.Models.{Time}
use distributed_asynchronous.Scheduler.Cron.{
  Croniter, Stop, bad_cron, overflow, out_of_fuel, next_run_time, latest_due, due_tick,
}

-- What the program relies on of croniter: the next fire time is later than the given one.
abbrev pub IsStrict : Croniter → Type 0
IsStrict get_next = (expr tz : String) (t u : Time) → get_next expr tz t ≡ some u → t < u

-- Every schedule moves forward.
next_run_time-lt :
    (get_next : Croniter) (schedule_type : String) (expr : Option String) (tz : String) (t u : Time)
    → IsStrict get_next
    → next_run_time get_next schedule_type expr tz t ≡ ok (some u)
    → t < u
unfolding next_run_time
next_run_time-lt get_next schedule_type none tz t u strict h = cc
next_run_time-lt get_next schedule_type (some e) tz t u strict h = ground (arith, strict e tz t u)

next_run_time-ne-out_of_fuel :
    (get_next : Croniter) (schedule_type : String) (expr : Option String) (tz : String) (t : Time)
    → next_run_time get_next schedule_type expr tz t ≢ err out_of_fuel
unfolding next_run_time
next_run_time-ne-out_of_fuel get_next schedule_type none tz t = ground arith
next_run_time-ne-out_of_fuel get_next schedule_type (some e) tz t = ground arith

module _ (get_next : Croniter) (schedule_type : String) (expr : Option String) (tz : String) where
  abbrev next : Time → Result Stop (Option Time)
  next = next_run_time get_next schedule_type expr tz

  -- `t` is a fire time after `base`: the schedule's next one, or the next one after a fire time.
  pub data Fires (base : Time) : Time → Type 0 where
    once : {t : Time} → next base ≡ ok (some t) → Fires base t
    again : {s t : Time} → Fires base s → next s ≡ ok (some t) → Fires base t

  -- A time for which the schedule is asked: the base, or a fire time by `now`.
  abbrev pub Asked : (base now t : Time) → Type 0
  Asked base now t = (t ≡ base) ⊎ (Fires base t × (t ≤ now))

  -- What the loop returns: the last fire time by `now`; it raises only what `next_run_time` raises.
  abbrev IsLatest : (base now : Time) → Result Stop (Option Time) → Type 0
  IsLatest base now (ok none) = ⊥
  IsLatest base now (ok (some t)) =
      (base < t) × (t ≤ now) × Fires base t × ((u : Time) → next t ≡ ok (some u) → now < u)
  IsLatest base now (err bad_cron) = (t : Time) × Asked base now t × (next t ≡ err bad_cron)
  IsLatest base now (err overflow) = (t : Time) × Asked base now t × (next t ≡ err overflow)
  IsLatest base now (err out_of_fuel) = ⊥

  -- What `due_tick` returns: nothing while the next fire time is not due.
  abbrev pub IsDue : (base now : Time) → Result Stop (Option Time) → Type 0
  IsDue base now (ok none) = (u : Time) → next base ≡ ok (some u) → now < u
  IsDue base now r = IsLatest base now r

  module _ (strict : IsStrict get_next) (base now : Time) where
    latest_due-IsLatest :
        (fuel tick : Time)
        → base < tick
        → tick ≤ now
        → now < tick + fuel
        → Fires base tick
        → IsLatest base now (latest_due get_next fuel schedule_type expr tz tick now)
    unfolding latest_due
    latest_due-IsLatest zero tick lt le enough f = absurd (omega arith)
    latest_due-IsLatest (suc fuel) tick lt le enough f = go (next tick) refl λ u e due.
        latest_due-IsLatest fuel u (omega (arith, later u e)) (ground arith)
          (omega (arith, later u e)) (again f e)
      where
        later : (u : Time) → next tick ≡ ok (some u) → tick < u
        later u e = next_run_time-lt get_next schedule_type expr tz tick u strict e

        go :
            (r : Result Stop (Option Time))
            → next tick ≡ r
            → ((u : Time)
                → next tick ≡ ok (some u)
                → ltb now u ≡ false
                → IsLatest base now (latest_due get_next fuel schedule_type expr tz u now))
            → IsLatest base now (latest_due get_next (suc fuel) schedule_type expr tz tick now)
        go (err bad_cron) e rest = rw (e, latest_due) (tick, inr (f, le), e)
        go (err overflow) e rest = rw (e, latest_due) (tick, inr (f, le), e)
        go (err out_of_fuel) e rest =
            absurd (next_run_time-ne-out_of_fuel get_next schedule_type expr tz tick e)
        go (ok none) e rest = rw (e, latest_due) (lt, le, f, λ u h. cc)
        go (ok (some u)) e rest = elim (Bool-cases (ltb now u)) [
          | inl early ↦ rw (e, latest_due, early) (lt, le, f, λ v h. ground arith)
          | inr due ↦ rw (e, latest_due, due) (rest u e due)
        ]

    IsLatest→IsDue : (r : Result Stop (Option Time)) → IsLatest base now r → IsDue base now r
    IsLatest→IsDue (ok none) h = absurd h
    IsLatest→IsDue (ok (some t)) h = h
    IsLatest→IsDue (err bad_cron) h = h
    IsLatest→IsDue (err overflow) h = h
    IsLatest→IsDue (err out_of_fuel) h = h

    -- Where croniter's next fire time is always a later one: `due_tick` ends and returns the last
    -- fire time after `base` by `now`; it returns nothing where the next fire time is not due or
    -- there is none; and it raises only what `next_run_time` raises for the base or for a fire time
    -- by `now`: an error of croniter, or an overflow of datetime.
    pub due_tick-IsDue : IsDue base now (due_tick get_next schedule_type expr tz base now)
    unfolding due_tick
    due_tick-IsDue = go (next base) refl
      where
        go :
            (r : Result Stop (Option Time))
            → next base ≡ r
            → IsDue base now (due_tick get_next schedule_type expr tz base now)
        go (err bad_cron) e = rw (e, due_tick) (base, inl refl, e)
        go (err overflow) e = rw (e, due_tick) (base, inl refl, e)
        go (err out_of_fuel) e =
            absurd (next_run_time-ne-out_of_fuel get_next schedule_type expr tz base e)
        go (ok none) e = rw (e, due_tick) (λ u h. cc)
        go (ok (some u)) e =
            let lt = next_run_time-lt get_next schedule_type expr tz base u strict e in
            elim (Bool-cases (ltb now u)) [
              | inl early ↦ rw (e, due_tick, early) (λ v h. ground arith)
              | inr due ↦
                  rw (e, due_tick, due)
                    (IsLatest→IsDue _ (
                      latest_due-IsLatest (now - u + 1) u lt (ground arith) (ground arith)
                        (once e)))
            ]
