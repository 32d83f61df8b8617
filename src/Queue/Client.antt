-- ===== src/Queue/Client.antt =====
-- What the functions of backend/common/redis_queue.py do with the replies of Redis: which exceptions they
-- pass on, and what they count. A function takes the replies to its commands in the order in which it
-- sends them; a command that is not sent any more leaves its reply unread.
use distributed_asynchronous.Prelude.{
  ℕ, String, Bool, true, false, ◌&&◌, ◌||◌, Option, none, some, List, [], ◌∷◌, ◌++◌, ◌==◌,
  if◌then◌else◌, codes, Result, ok, err, ◌>>=◌, ◌≡◌, refl,
}

-- redis.ResponseError with its text, or another exception.
pub data RedisError : Type 0 where
  response_error : String → RedisError
  other_error : RedisError

-- common/metrics.py: the labels of each increment of REDIS_COMMANDS, and the gauges REDIS_STREAM_LENGTH
-- and REDIS_DELAYED_RUNS. The histogram of durations is left out.
pub record Metrics : Type 0 where
  pub commands : List (String × String)
  pub stream_length : ℕ
  pub delayed_runs : ℕ

abbrev command_status {ℓ} : {A : Type ℓ} → Result RedisError A → String
command_status (ok a) = "success"
command_status (err e) = "error"

-- observe_redis_command, _observe_async: the reply or exception is passed on.
unfoldable pub observe_redis_command {ℓ} :
    {A : Type ℓ} → String → Result RedisError A → Metrics → Metrics
observe_redis_command operation reply m = record m {
  commands = m.commands ++ (operation, command_status reply) ∷ [];
}

abbrev starts_with : List ℕ → List ℕ → Bool
starts_with [] text = true
starts_with (c ∷ part) [] = false
starts_with (c ∷ part) (d ∷ text) = c == d && starts_with part text

-- `part in text`
abbrev pub is_part : List ℕ → List ℕ → Bool
is_part part [] = starts_with part []
is_part part (c ∷ text) = starts_with part (c ∷ text) || is_part part text

abbrev pub is_busygroup : RedisError → Bool
is_busygroup (response_error text) = is_part (codes "BUSYGROUP") (codes text)
is_busygroup other_error = false

abbrev pub unless_busygroup : Result RedisError (Unit {0}) → Result RedisError (Unit {0})
unless_busygroup (ok u) = ok u
unless_busygroup (err e) = if is_busygroup e then ok tt else err e

-- ensure_group, ensure_group_async; `reply` is that of XGROUP CREATE.
unfoldable pub ensure_group :
    Result RedisError (Unit {0}) → Metrics → Result RedisError (Unit {0}) × Metrics
ensure_group reply m = (unless_busygroup reply, observe_redis_command "xgroup_create" reply m)

-- The value that a gauge is set to: 0 for a ResponseError.
abbrev pub gauge_value : Result RedisError ℕ → Result RedisError ℕ
gauge_value (ok n) = ok n
gauge_value (err (response_error text)) = ok 0
gauge_value (err other_error) = err other_error

abbrev pub set_delayed_runs : Result RedisError ℕ → Metrics → Result RedisError (Unit {0}) × Metrics
set_delayed_runs (err e) m = (err e, m)
set_delayed_runs (ok n) m = (ok tt, record m { delayed_runs = n })

abbrev pub set_stream_length :
    Result RedisError ℕ
    → (zcard : Result RedisError ℕ) → Metrics
    → Result RedisError (Unit {0}) × Metrics
set_stream_length (err e) zcard m = (err e, m)
set_stream_length (ok n) zcard m =
    set_delayed_runs (gauge_value zcard)
      (observe_redis_command "zcard" zcard (record m { stream_length = n }))

-- update_queue_gauges, update_queue_gauges_async
unfoldable pub update_queue_gauges :
    (xlen zcard : Result RedisError ℕ) → Metrics → Result RedisError (Unit {0}) × Metrics
update_queue_gauges xlen zcard m =
    set_stream_length (gauge_value xlen) zcard (observe_redis_command "xlen" xlen m)

abbrev pub answered {ℓ} :
    {A : Type ℓ} → A → Result RedisError (Unit {0}) × Metrics → Result RedisError A × Metrics
answered a (ok u, m) = (ok a, m)
answered a (err e, m) = (err e, m)

abbrev pub then_gauges {ℓ} :
    {A : Type ℓ}
    → Result RedisError A
    → (xlen zcard : Result RedisError ℕ) → Metrics
    → Result RedisError A × Metrics
then_gauges (err e) xlen zcard m = (err e, m)
then_gauges (ok a) xlen zcard m = answered a (update_queue_gauges xlen zcard m)

-- enqueue_run, enqueue_run_async; the answer is the id of the message.
unfoldable pub enqueue_run :
    (xadd : Result RedisError String)
    → (xlen zcard : Result RedisError ℕ) → Metrics
    → Result RedisError String × Metrics
unfolding update_queue_gauges
enqueue_run xadd xlen zcard m = then_gauges xadd xlen zcard (observe_redis_command "xadd" xadd m)

-- A reply that is not read.
abbrev pub done : Result RedisError ℕ → Result RedisError (Unit {0})
done (ok n) = ok tt
done (err e) = err e

-- schedule_delayed, schedule_delayed_async
unfoldable pub schedule_delayed :
    (zadd xlen zcard : Result RedisError ℕ) → Metrics → Result RedisError (Unit {0}) × Metrics
unfolding update_queue_gauges
schedule_delayed zadd xlen zcard m =
    then_gauges (done zadd) xlen zcard (observe_redis_command "zadd" zadd m)

-- promote_due_delayed; the answer is the reply of the script, the number of runs that it moved.
unfoldable pub promote_due_delayed :
    (eval xlen zcard : Result RedisError ℕ) → Metrics → Result RedisError ℕ × Metrics
unfolding update_queue_gauges
promote_due_delayed eval xlen zcard m =
    then_gauges eval xlen zcard (observe_redis_command "eval" eval m)

-- publish_cancel
unfoldable pub publish_cancel :
    Result RedisError ℕ → Metrics → Result RedisError (Unit {0}) × Metrics
publish_cancel reply m = (done reply, observe_redis_command "publish" reply m)

-- The reply of XPENDING, by version of redis-py: a dictionary with its entry "pending", or a sequence.
pub data Summary : Type 0 where
  dictionary : Option ℕ → Summary
  sequence : List ℕ → Summary

abbrev pub count_in : Summary → ℕ
count_in (dictionary none) = 0
count_in (dictionary (some n)) = n
count_in (sequence []) = 0
count_in (sequence (n ∷ rest)) = n

abbrev pub count_of_reply : Result RedisError Summary → Result RedisError ℕ
count_of_reply (ok summary) = ok (count_in summary)
count_of_reply (err (response_error text)) = ok 0
count_of_reply (err other_error) = err other_error

unfoldable pub pending_count : Result RedisError Summary → Metrics → Result RedisError ℕ × Metrics
pending_count reply m = (count_of_reply reply, observe_redis_command "xpending" reply m)

-- A function that puts a run on the stream raises what its own command raises, or else what XLEN or
-- ZCARD raises unless it is a ResponseError; so it may raise after its command has been executed.
pub then_gauges_result :
    {A : Type 0} (own : Result RedisError A) (xlen zcard : Result RedisError ℕ) (m : Metrics)
    → (then_gauges own xlen zcard m).0
      ≡ (own >>= λ a. gauge_value xlen >>= λ n. gauge_value zcard >>= λ k. ok a)
unfolding update_queue_gauges
then_gauges_result (err e) xlen zcard m = refl
then_gauges_result (ok a) (err other_error) zcard m = refl
then_gauges_result (ok a) (err (response_error t)) (err (response_error u)) m = refl
then_gauges_result (ok a) (err (response_error t)) (err other_error) m = refl
then_gauges_result (ok a) (err (response_error t)) (ok k) m = refl
then_gauges_result (ok a) (ok n) (err (response_error u)) m = refl
then_gauges_result (ok a) (ok n) (err other_error) m = refl
then_gauges_result (ok a) (ok n) (ok k) m = refl
