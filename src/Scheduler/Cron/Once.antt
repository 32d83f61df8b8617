-- ===== src/Scheduler/Cron/Once.antt =====
-- backend/scheduler/cron.py: what is due after a tick.
use distributed_asynchronous.Prelude.{
  ℕ, zero, suc, ◌+◌, ◌-◌, ◌≡◌, refl, String, Option, none, some, arith, Result, ok, err,
}
use distributed_asynchronous.Models.{Time}
use distributed_asynchronous.Scheduler.Cron.{Croniter, Stop, next_run_time, latest_due, due_tick}

module _ (get_next : Croniter) (schedule_type : String) (expr : Option String) (tz : String)
    (now : Time) where
  latest_due-once :
      (fuel tick t : Time)
      → latest_due get_next fuel schedule_type expr tz tick now ≡ ok (some t)
      → due_tick get_next schedule_type expr tz t now ≡ ok none
  unfolding latest_due due_tick
  latest_due-once zero tick t h = cc
  latest_due-once (suc fuel) tick t h =
      go (next_run_time get_next schedule_type expr tz tick) refl λ u. latest_due-once fuel u t
    where
      go :
          (r : Result Stop (Option Time))
          → next_run_time get_next schedule_type expr tz tick ≡ r
          → ((u : Time)
              → latest_due get_next fuel schedule_type expr tz u now ≡ ok (some t)
              → due_tick get_next schedule_type expr tz t now ≡ ok none)
          → due_tick get_next schedule_type expr tz t now ≡ ok none
      go (err x) e rest = ground (arith, h)
      go (ok none) e rest = ground (arith, h)
      go (ok (some u)) e rest = ground (arith, h, rest u)

  from_loop :
      (base t : Time)
      → due_tick get_next schedule_type expr tz base now ≡ ok (some t)
      → (fuel : ℕ) × (tick : Time) × (latest_due get_next fuel schedule_type expr tz tick now
          ≡ ok (some t))
  unfolding due_tick
  from_loop base t h = go (next_run_time get_next schedule_type expr tz base) refl
    where
      go :
          (r : Result Stop (Option Time))
          → next_run_time get_next schedule_type expr tz base ≡ r
          → (fuel : ℕ) × (tick : Time) × (latest_due get_next fuel schedule_type expr tz tick now
              ≡ ok (some t))
      go (err x) e = ground (arith, h)
      go (ok none) e = ground (arith, h)
      go (ok (some u)) e = (now - u + 1, u, ground (arith, h))

  -- Once the tick that `due_tick` returned is the base, nothing more is due at that time.
  pub due_tick-once :
      (base t : Time)
      → due_tick get_next schedule_type expr tz base now ≡ ok (some t)
      → due_tick get_next schedule_type expr tz t now ≡ ok none
  due_tick-once base t h =
      let (fuel, tick, loop) = from_loop base t h in latest_due-once fuel tick t loop
