-- ===== src/Queue/Promote.antt =====
-- What the commands of backend/common/redis_queue.py do to a Redis server.
use mathlib.Core.List.{append_assoc, append-nil}
use distributed_asynchronous.Prelude.{
  ℕ, ◌≡◌, refl, sym, none, List, [], ◌∷◌, ◌++◌, arith, if◌then◌else◌, contains, occurrences,
  occurrences-append, contains-occurrences, ◌+◌,
}
use distributed_asynchronous.Models.{Time}
use distributed_asynchronous.Queue.Server.{Redis, is_due}
use distributed_asynchronous.Queue.{Command, xadd, zadd, zrem, publish, promote_script}

module _ (redis : Redis) where
  open redis use {State, stream, zscore, zrangebyscore}

  -- A message on a channel leaves no trace in the state.
  abbrev pub perform : Command → State → State
  perform (xadd r) s = redis.xadd s r
  perform (zadd r t) s = redis.zadd s r t
  perform (zrem r) s = redis.zrem s r
  perform (publish r) s = s

  abbrev pub perform_all : List Command → State → State
  perform_all [] s = s
  perform_all (c ∷ cs) s = perform_all cs (perform c s)

  stream-promote_script :
      (due : List ℕ) (s : State) → stream (perform_all (promote_script due) s) ≡ stream s ++ due
  unfolding promote_script
  stream-promote_script [] s = sym (append-nil (stream s))
  stream-promote_script (m ∷ due) s =
      rw (stream-promote_script due, redis.stream-xadd, redis.stream-zrem)
        (append_assoc (stream s) (m ∷ []) due)

  zscore-promote_script :
      (due : List ℕ) (s : State) (k : ℕ)
      → zscore (perform_all (promote_script due) s) k
        ≡ (if contains due k then none else zscore s k)
  unfolding promote_script
  zscore-promote_script [] s k = refl
  zscore-promote_script (m ∷ due) s k = ground (
    arith,
    zscore-promote_script due (redis.xadd (redis.zrem s m) m) k,
    redis.zscore-xadd (redis.zrem s m) m k,
    redis.zscore-zrem s m k,
  )

  -- On a server with the laws of Redis: the promotion script appends the due runs to the stream, in
  -- the order of the reply; each run is then in the stream once more than before if it is due, and as
  -- often as before if it is not; the due runs leave the delayed set, and the others keep their time.
  pub promote_script_lem :
      (s : State) (now : Time)
      → (stream (perform_all (promote_script (zrangebyscore s now)) s)
          ≡ stream s ++ zrangebyscore s now)
        × ((k : ℕ)
            → occurrences k (stream (perform_all (promote_script (zrangebyscore s now)) s))
              ≡ occurrences k (stream s) + (if is_due now (zscore s k) then 1 else 0))
        × ((k : ℕ)
            → zscore (perform_all (promote_script (zrangebyscore s now)) s) k
              ≡ (if is_due now (zscore s k) then none else zscore s k))
  promote_script_lem s now = (
    stream-promote_script (zrangebyscore s now) s,
    λ k.
        rw
          (
            stream-promote_script (zrangebyscore s now) s,
            occurrences-append k (stream s) (zrangebyscore s now),
          )
          (ground (
            arith,
            redis.contains-zrangebyscore s now k,
            contains-occurrences k (zrangebyscore s now),
            redis.zrangebyscore_once s now k,
          )),
    λ k.
        rw (← redis.contains-zrangebyscore s now k)
          (zscore-promote_script (zrangebyscore s now) s k),
  )
