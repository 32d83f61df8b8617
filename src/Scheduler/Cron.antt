-- ===== src/Scheduler/Cron.antt =====
-- backend/scheduler/cron.py. Times are UTC already, so that `astimezone(utc)` is the identity;
-- the texts of schedules are ASCII.
pub mod Latest
pub mod Interval
pub mod Once
use distributed_asynchronous.Prelude.{
  ℕ, zero, suc, ◌+◌, ◌-◌, ◌*◌, Bool, true, ◌&&◌, ◌||◌, not, String, Option, none, some, List, [],
  ◌∷◌, ltb, leb, if◌then◌else◌, codes, str_eq, Result, ok, err,
}
use distributed_asynchronous.Constants.ScheduleType
use distributed_asynchronous.Models.{Time, seconds}

abbrev is_digit : ℕ → Bool
is_digit c = leb b'0' c && leb c b'9'

abbrev all_digits : List ℕ → Bool
all_digits [] = true
all_digits (c ∷ cs) = is_digit c && all_digits cs

-- s.isdigit()
unfoldable pub isdigit : String → Bool
isdigit s = not (str_eq s "") && all_digits (codes s)

abbrev digits_value : ℕ → List ℕ → ℕ
digits_value acc [] = acc
digits_value acc (c ∷ cs) = digits_value (acc * 10 + (c - b'0')) cs

-- int(s), where isdigit(s)
unfoldable pub int : String → ℕ
int s = digits_value 0 (codes s)

-- Why a computation of ticks ends with no answer: croniter raises, datetime raises OverflowError, or the
-- loop of the model runs out of fuel.
pub data Stop : Type 0 where
  bad_cron overflow out_of_fuel : Stop

-- datetime.max, the last microsecond of the year 9999. A number of seconds that timedelta does not take
-- leads beyond it too.
abbrev pub max_time : Time
max_time = 253_402_300_799_999_999

-- after + timedelta(seconds=seconds)
abbrev pub advanced : Time → Result Stop (Option Time)
advanced t = if leb t max_time then ok (some t) else err overflow

-- croniter(expr, after in the zone tz).get_next(), or `none` where croniter raises.
abbrev pub Croniter : Type 0
Croniter = (expr tz : String) → Time → Option Time

abbrev or_raise : Option Time → Result Stop (Option Time)
or_raise none = err bad_cron
or_raise (some t) = ok (some t)

module _ (get_next : Croniter) where
  unfoldable pub next_run_time :
      (schedule_type : String) (schedule_expr : Option String) (tz : String)
      → Time
      → Result Stop (Option Time)
  unfolding isdigit int
  next_run_time schedule_type none tz after = ok none
  next_run_time schedule_type (some expr) tz after =
      if str_eq schedule_type ScheduleType.cron
      then if str_eq expr "" then ok none else or_raise (get_next expr tz after)
      else if str_eq schedule_type ScheduleType.interval
      then if str_eq expr "" || not (isdigit expr)
        then ok none
        else if leb (int expr) 0
        then ok none
        else advanced (after + seconds (int expr))
      else ok none

  -- The `while True` loop of `due_tick`: the ticks from `tick` on, as long as they are due. The
  -- fuel bounds its rounds.
  unfoldable pub latest_due :
      ℕ
      → (schedule_type : String) (schedule_expr : Option String) (tz : String) (tick now : Time)
      → Result Stop (Option Time)
  latest_due zero schedule_type expr tz tick now = err out_of_fuel
  latest_due (suc fuel) schedule_type expr tz tick now =
      elim (next_run_time schedule_type expr tz tick) [
        | err e ↦ err e
        | ok none ↦ ok (some tick)
        | ok (some nxt) ↦
            let later = latest_due fuel schedule_type expr tz nxt now in
            if ltb now nxt then ok (some tick) else later
      ]

  unfoldable pub due_tick :
      (schedule_type : String) (schedule_expr : Option String) (tz : String) (base now : Time)
      → Result Stop (Option Time)
  unfolding latest_due
  due_tick schedule_type expr tz base now = elim (next_run_time schedule_type expr tz base) [
    | err e ↦ err e
    | ok none ↦ ok none
    | ok (some tick) ↦
        if ltb now tick then ok none else latest_due (now - tick + 1) schedule_type expr tz tick now
  ]
