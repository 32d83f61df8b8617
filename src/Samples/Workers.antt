-- ===== src/Samples/Workers.antt =====
-- A run of one worker of backend/worker/main.py.
use distributed_asynchronous.Prelude.{
  ◌+◌, ◌≤◌, ◌≡◌, refl, arith, Option, none, some, List, [], ◌∷◌, min, length,
}
use distributed_asynchronous.Auth.Text.{parse_int}
use distributed_asynchronous.Worker.{
  Message, Limits, Worker, idle, inflight, parse_run_id, begin, reclaim_stale, read_new, enter,
  finish, receive, spawn, drop, count_of,
}
use distributed_asynchronous.Worker.Steps.{
  Reach, starts, then_step, begins, reclaims, reads, enters, finishes,
}
use distributed_asynchronous.Worker.Steps.Capacity.{Reach-capacity}
use distributed_asynchronous.Worker.Steps.Accounts.{tally, messages_of, Reach-held}

abbrev limits : Limits
limits = record { worker_concurrency = 2; worker_read_batch = 5 }

-- Two runs and a message without a run.
abbrev reply : Option (List Message)
reply = some (
    record { message_id = "1-0"; fields = ("run_id", "7") ∷ [] }
    ∷ record { message_id = "2-0"; fields = [] }
    ∷ [])

abbrev worker : Worker
worker = finish 0 (enter (read_new reply (reclaim_stale 2 none (begin limits idle))))

worker-Reach : Reach limits ("1-0" ∷ "2-0" ∷ []) worker
unfolding idle begin reclaim_stale read_new enter receive count_of spawn drop parse_run_id parse_int
worker-Reach =
    then_step
      (then_step
        (then_step
          (then_step (then_step starts (begins refl refl)) (reclaims none refl (omega arith)))
          (reads reply refl (omega arith)))
        (enters (omega arith)))
      (finishes 0)

Reach-capacity_example : (length worker.running ≤ 2) × (inflight worker ≤ 2 + min 2 5)
Reach-capacity_example = Reach-capacity limits ("1-0" ∷ "2-0" ∷ []) worker worker-Reach

Reach-held_example :
    tally "2-0" ("1-0" ∷ "2-0" ∷ [])
    ≡ tally "2-0" worker.dropped
      + tally "2-0" (messages_of worker.waiting)
      + tally "2-0" (messages_of worker.running)
Reach-held_example = Reach-held "2-0" limits ("1-0" ∷ "2-0" ∷ []) worker worker-Reach
