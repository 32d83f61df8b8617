-- ===== src/Queue.antt =====
-- backend/common/redis_queue.py: the dispatch stream, the set of delayed runs, and the cancel
-- channel.
pub mod Server
pub mod Promote
pub mod Streams
pub mod Client
use distributed_asynchronous.Prelude.{ℕ, String, List, [], ◌∷◌, ◌++◌, show}
use distributed_asynchronous.Models.{Time}

-- The Redis commands by which the program changes the server's state or talks to others: XADD of a
-- run to the dispatch stream, ZADD and ZREM on the delayed set, PUBLISH on the cancel channel.
pub data Command : Type 0 where
  xadd : ℕ → Command
  zadd : ℕ → Time → Command
  zrem : ℕ → Command
  publish : ℕ → Command

-- The fields of the message of an XADD.
unfoldable pub stream_fields : (run_id : ℕ) → List (String × String)
stream_fields run_id = ("run_id", show run_id) ∷ []

-- enqueue_run, enqueue_run_async
unfoldable pub enqueue_run : ℕ → List Command
enqueue_run run_id = xadd run_id ∷ []

-- publish_cancel
unfoldable pub publish_cancel : ℕ → List Command
publish_cancel run_id = publish run_id ∷ []

-- schedule_delayed, schedule_delayed_async
unfoldable pub schedule_delayed : ℕ → Time → List Command
schedule_delayed run_id ready_at = zadd run_id ready_at ∷ []

-- _PROMOTE_LUA: the commands of the script, given the reply of its ZRANGEBYSCORE.
unfoldable pub promote_script : List ℕ → List Command
promote_script [] = []
promote_script (member ∷ due) = zrem member ∷ xadd member ∷ promote_script due
