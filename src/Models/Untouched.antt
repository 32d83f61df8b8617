-- ===== src/Models/Untouched.antt =====
-- Changes to the tables of runs and of their logs that leave the other tables of
-- backend/common/models.py untouched.
use distributed_asynchronous.Prelude.{◌≡◌, ◌∙◌, ap}
use distributed_asynchronous.Models.{Database}

-- Users, jobs and dependencies are as they were.
abbrev pub OnlyRuns : Database → Database → Type 0
OnlyRuns db later = later ≡ record db {
  runs = later.runs;
  next_run_id = later.next_run_id;
  logs = later.logs;
  next_log_id = later.next_log_id;
}

pub OnlyRuns-trans : (a b c : Database) → OnlyRuns a b → OnlyRuns b c → OnlyRuns a c
OnlyRuns-trans a b c p q =
    q
    ∙ ap
        (λ (d : Database). record d {
          runs = c.runs;
          next_run_id = c.next_run_id;
          logs = c.logs;
          next_log_id = c.next_log_id;
        })
        p
