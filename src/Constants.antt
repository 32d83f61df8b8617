-- ===== src/Constants.antt =====
-- backend/common/constants.py: run states, triggers, and the words that the database stores.
pub mod TaskType
pub mod ScheduleType
use distributed_asynchronous.Prelude.{
  ℕ, Bool, true, false, ◌||◌, String, List, [], ◌∷◌, ◌==◌, str_eq,
}

-- class RunStatus
pub data RunStatus : Type 0 where
  pending queued running succeeded failed timed_out canceled : RunStatus

abbrev code : RunStatus → ℕ
code pending = 0
code queued = 1
code running = 2
code succeeded = 3
code failed = 4
code timed_out = 5
code canceled = 6

abbrev pub status_eq : RunStatus → RunStatus → Bool
status_eq a b = code a == code b

-- `status in statuses`, and SQL's `status IN (...)`
abbrev pub status_in : List RunStatus → RunStatus → Bool
status_in [] s = false
status_in (x ∷ xs) s = status_eq x s || status_in xs s

-- RunStatus.TERMINAL
abbrev pub terminal : List RunStatus
terminal = succeeded ∷ failed ∷ timed_out ∷ canceled ∷ []

-- The words in the status column.
unfoldable pub status_name : RunStatus → String
status_name pending = "pending"
status_name queued = "queued"
status_name running = "running"
status_name succeeded = "succeeded"
status_name failed = "failed"
status_name timed_out = "timed_out"
status_name canceled = "canceled"

-- class TriggerType
pub data TriggerType : Type 0 where
  scheduled manual dependency retry : TriggerType

-- `word in words`
abbrev pub word_in : List String → String → Bool
word_in [] w = false
word_in (x ∷ xs) w = str_eq x w || word_in xs w
