-- ===== src/Api/Jobs/Validation.antt =====
-- What JobBase of backend/common/schemas.py accepts, and the schedules of backend/scheduler/cron.py.
use distributed_asynchronous.Prelude.{
  ◌≡◌, ◌≢◌, refl, Bool, true, false, ◌||◌, String, Option, none, some, arith, if◌then◌else◌, str_eq,
  ok,
}
use distributed_asynchronous.Constants.ScheduleType
use distributed_asynchronous.Models.{Time}
use distributed_asynchronous.Scheduler.Cron.{Croniter, next_run_time}
use distributed_asynchronous.Api.Jobs.{JobCreate, is_valid_schedule, is_valid}

schedule_has_next :
    (get_next : Croniter) (cron_is_valid : String → Bool) (schedule_type tz : String)
    (expr : Option String) (t : Time)
    → is_valid_schedule cron_is_valid schedule_type expr ≡ true
    → (str_eq schedule_type ScheduleType.cron || str_eq schedule_type ScheduleType.interval) ≡ true
    → next_run_time get_next schedule_type expr tz t ≢ ok none
unfolding is_valid_schedule next_run_time
schedule_has_next get_next cron_is_valid schedule_type tz none t h k = ground arith
schedule_has_next get_next cron_is_valid schedule_type tz (some e) t h k = ground arith

second_test : (a b c : Bool) → (if a then if b then c else false else false) ≡ true → b ≡ true
second_test true true c h = refl
second_test true false c h = cc
second_test false b c h = cc

-- For a cron or interval job that the validators accept `next_run_time` never answers that there is
-- no next time.
pub is_valid-has_next :
    (get_next : Croniter) (cron_is_valid : String → Bool) (p : JobCreate) (t : Time)
    → is_valid cron_is_valid p ≡ true
    → (str_eq p.schedule_type ScheduleType.cron || str_eq p.schedule_type ScheduleType.interval)
      ≡ true
    → next_run_time get_next p.schedule_type p.schedule_expr p.timezone t ≢ ok none
unfolding is_valid
is_valid-has_next get_next cron_is_valid p t h k =
    schedule_has_next get_next cron_is_valid p.schedule_type p.timezone p.schedule_expr t
      (second_test _ _ _ h) k
