-- ===== src/Constants/ScheduleType.antt =====
-- backend/common/constants.py: class ScheduleType.
use distributed_asynchronous.Prelude.{String, List, [], ◌∷◌}

abbrev pub cron : String
cron = "cron"

abbrev pub interval : String
interval = "interval"

abbrev pub manual : String
manual = "manual"

abbrev pub all : List String
all = cron ∷ interval ∷ manual ∷ []
