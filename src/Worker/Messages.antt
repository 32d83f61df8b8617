-- ===== src/Worker/Messages.antt =====
-- The messages between enqueue_run of backend/common/redis_queue.py and backend/worker/main.py.
use distributed_asynchronous.Prelude.{ℕ, ◌≡◌, some}
use distributed_asynchronous.Models.Json.{pos}
use distributed_asynchronous.Auth.Text.Numerals.{parse_int-show}
use distributed_asynchronous.Queue.{stream_fields}
use distributed_asynchronous.Worker.{parse_run_id}

-- A worker reads from a message the run that was enqueued, whatever its id.
pub parse_run_id-stream_fields :
    (run_id : ℕ) → parse_run_id (stream_fields run_id) ≡ some (pos run_id)
unfolding parse_run_id stream_fields
parse_run_id-stream_fields run_id = parse_int-show run_id
