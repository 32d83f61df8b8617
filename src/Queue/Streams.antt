-- ===== src/Queue/Streams.antt =====
-- What a sequence of the commands of backend/common/redis_queue.py adds to the dispatch stream.
use mathlib.Core.List.{append_assoc, append-nil}
use distributed_asynchronous.Prelude.{ℕ, ◌≡◌, refl, sym, ap, List, [], ◌∷◌, ◌++◌}
use distributed_asynchronous.Queue.Server.{Redis}
use distributed_asynchronous.Queue.Promote.{perform_all}
use distributed_asynchronous.Queue.{Command, xadd, zadd, zrem, publish}

-- The runs whose messages the commands add, in their order.
abbrev pub added : List Command → List ℕ
added [] = []
added (xadd r ∷ cs) = r ∷ added cs
added (zadd r t ∷ cs) = added cs
added (zrem r ∷ cs) = added cs
added (publish r ∷ cs) = added cs

pub added-append : (cs ds : List Command) → added (cs ++ ds) ≡ added cs ++ added ds
added-append [] ds = refl
added-append (xadd r ∷ cs) ds = ap (λ rs. r ∷ rs) (added-append cs ds)
added-append (zadd r t ∷ cs) ds = added-append cs ds
added-append (zrem r ∷ cs) ds = added-append cs ds
added-append (publish r ∷ cs) ds = added-append cs ds

module _ (redis : Redis) where
  open redis use {State, stream}

  pub stream-perform_all :
      (cs : List Command) (s : State) → stream (perform_all redis cs s) ≡ stream s ++ added cs
  stream-perform_all [] s = sym (append-nil (stream s))
  stream-perform_all (xadd r ∷ cs) s =
      rw (stream-perform_all cs, redis.stream-xadd) (append_assoc (stream s) (r ∷ []) (added cs))
  stream-perform_all (zadd r t ∷ cs) s = rw (stream-perform_all cs, redis.stream-zadd) refl
  stream-perform_all (zrem r ∷ cs) s = rw (stream-perform_all cs, redis.stream-zrem) refl
  stream-perform_all (publish r ∷ cs) s = stream-perform_all cs s
