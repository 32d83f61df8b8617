-- ===== src/Executors/Retry.antt =====
-- backend/worker/executors/retry.py, with `retry_backoff_max_sec` of backend/common/config.py as
-- the argument `cap`.
pub mod Backoff
use distributed_asynchronous.Prelude.{ℕ, ◌-◌, ◌*◌, ◌^◌, min, Bool, leb, if◌then◌else◌}

unfoldable pub should_retry : ℕ → ℕ → Bool
should_retry attempt max_retries = leb attempt max_retries

-- `attempt - 1` stops at 0, as `max(0, attempt - 1)` does.
unfoldable pub backoff_seconds : ℕ → ℕ → ℕ → ℕ
backoff_seconds cap attempt base_sec =
    if leb base_sec 0 then 0 else min (base_sec * 2 ^ (attempt - 1)) cap
