-- ===== src/Worker/Steps.antt =====
-- The steps of a worker, in any order that the event loop allows.
pub mod Capacity
pub mod Accounts
use distributed_asynchronous.Prelude.{
  ℕ, ◌+◌, ◌≤◌, ◌<◌, ◌≡◌, String, Bool, true, false, Option, List, [], ◌++◌, length, map,
}
use distributed_asynchronous.Worker.{
  Message, Limits, Phase, top, reclaiming, reading, Worker, idle, messages, begin, reclaim_stale,
  read_new, enter, finish, cancel, set_stop,
}

abbrev pub ids : Option (List Message) → List String
ids reply = map (λ (message : Message). message.message_id) (messages reply)

-- One step and the messages that it takes from Redis. XAUTOCLAIM and XREADGROUP give at most as
-- many messages as they are asked for; a task enters while the semaphore has a permit.
pub data Step (limits : Limits) : Worker → List String → Worker → Type 0 where
  begins : {w : Worker} → w.phase ≡ top → w.stop ≡ false → Step limits w [] (begin limits w)
  reclaims :
      {w : Worker} {count : ℕ}
      → (reply : Option (List Message)) → w.phase ≡ reclaiming count
      → length (messages reply) ≤ count
      → Step limits w (ids reply) (reclaim_stale count reply w)
  reads :
      {w : Worker} {count : ℕ}
      → (reply : Option (List Message)) → w.phase ≡ reading count
      → length (messages reply) ≤ count
      → Step limits w (ids reply) (read_new reply w)
  enters : {w : Worker} → length w.running < limits.worker_concurrency → Step limits w [] (enter w)
  finishes : {w : Worker} → (task_id : ℕ) → Step limits w [] (finish task_id w)
  cancels : {w : Worker} → (data_text : List ℕ) → Step limits w [] (cancel data_text w)
  stops : {w : Worker} → Step limits w [] (set_stop w)

-- The states that a worker reaches, with the messages that it has taken so far.
pub data Reach (limits : Limits) : List String → Worker → Type 0 where
  starts : Reach limits [] idle
  then_step :
      {taken more : List String} {w w' : Worker}
      → Reach limits taken w
      → Step limits w more w'
      → Reach limits (taken ++ more) w'
