-- ===== src/Worker/Steps/Accounts.antt =====
-- What becomes of each message that a worker takes.
use distributed_asynchronous.Prelude.{
  ℕ, suc, ◌+◌, ◌≡◌, refl, ap, arith, String, Bool, true, false, Option, none, some, List, [], ◌∷◌,
  ◌++◌, ◌==◌, if◌then◌else◌, str_eq, map,
}
use distributed_asynchronous.Models.Json.{ℤ}
use distributed_asynchronous.Auth.Text.{parse_int}
use distributed_asynchronous.Worker.{
  Message, Limits, Task, Worker, idle, messages, parse_run_id, spawn, drop, take_in, receive, begin,
  reclaim_stale, read_new, enter_first, cancel_run_id, enter, take_task, keep_task, finish_taken,
  finish, cancel, set_stop,
}
use distributed_asynchronous.Worker.Steps.{
  Step, begins, reclaims, reads, enters, finishes, cancels, stops, Reach, starts, then_step,
}

-- How often an id stands in a list.
abbrev pub tally : String → List String → ℕ
tally m [] = 0
tally m (x ∷ xs) = if str_eq x m then suc (tally m xs) else tally m xs

tally-append : (m : String) (xs ys : List String) → tally m (xs ++ ys) ≡ tally m xs + tally m ys
tally-append m [] ys = omega arith
tally-append m (x ∷ xs) ys = ground (arith, tally-append m xs ys)

abbrev pub messages_of : List Task → List String
messages_of = map (λ (task : Task). task.message_id)

tally-tasks :
    (m : String) (xs ys : List Task)
    → tally m (messages_of (xs ++ ys)) ≡ tally m (messages_of xs) + tally m (messages_of ys)
tally-tasks m [] ys = omega arith
tally-tasks m (x ∷ xs) ys = ground (arith, tally-tasks m xs ys)

-- The times that a message was dropped, waits or is being handled.
abbrev pub held : String → Worker → ℕ
held m w = tally m w.dropped + tally m (messages_of w.waiting) + tally m (messages_of w.running)

take_in_held :
    (m : String) (message : Message) (run_id : Option ℤ) (b : Bool) (w : Worker)
    → held m (take_in message run_id b w) ≡ held m w + tally m (message.message_id ∷ [])
unfolding spawn drop
take_in_held m message none b w = ground (arith, tally-append m w.dropped (message.message_id ∷ []))
take_in_held m message (some run_id) b w = ground (
  arith,
  tally-tasks m w.waiting (
      record {
        task_id = w.next_task;
        message_id = message.message_id;
        run_id = run_id;
        allow_running = b;
      }
      ∷ []),
)

receive_held :
    (m : String) (b : Bool) (reply : List Message) (w : Worker)
    → held m (receive b reply w)
      ≡ held m w + tally m (map (λ (message : Message). message.message_id) reply)
unfolding receive
receive_held m b [] w = omega arith
receive_held m b (message ∷ rest) w = ground (
  arith,
  receive_held m b rest (take_in message (parse_run_id message.fields) b w),
  take_in_held m message (parse_run_id message.fields) b w,
)

take_task_held :
    (m : String) (task_id : ℕ) (tasks others : List Task) (task : Task)
    → take_task task_id tasks ≡ some (task, others)
    → tally m (messages_of tasks) ≡ tally m (task.message_id ∷ []) + tally m (messages_of others)
unfolding take_task
take_task_held m task_id [] others task h = ground arith
take_task_held m task_id (t ∷ tasks) others task h =
    go (take_task task_id tasks) refl (λ rest. take_task_held m task_id tasks rest) h
  where
    go :
        (rest : Option (Task × List Task))
        → take_task task_id tasks ≡ rest
        → ((left : List Task) (found : Task)
            → take_task task_id tasks ≡ some (found, left)
            → tally m (messages_of tasks)
              ≡ tally m (found.message_id ∷ []) + tally m (messages_of left))
        → (if t.task_id == task_id then some (t, tasks) else keep_task t rest) ≡ some (task, others)
        → tally m (messages_of (t ∷ tasks))
          ≡ tally m (task.message_id ∷ []) + tally m (messages_of others)
    go none e ih k = ground arith
    go (some (found, left)) e ih k = ground (arith, ih left found e)

module _ (m : String) where
  finish_taken_held :
      (found : Option (Task × List Task)) (w : Worker) (task_id : ℕ)
      → take_task task_id w.running ≡ found
      → held m (finish_taken found w) ≡ held m w
  unfolding drop
  finish_taken_held none w task_id e = refl
  finish_taken_held (some (task, others)) w task_id e = ground (
    arith,
    take_task_held m task_id w.running others task e,
    tally-append m w.dropped (task.message_id ∷ []),
  )

  enter_first_held :
      (waiting : List Task) (w : Worker)
      → w.waiting ≡ waiting
      → held m (enter_first waiting w) ≡ held m w
  enter_first_held [] w e = refl
  enter_first_held (task ∷ rest) w e =
      ground (arith, e, tally-tasks m w.running (task ∷ []), ap (λ ts. tally m (messages_of ts)) e)

  cancel_run_id_held : (run_id : Option ℤ) (w : Worker) → held m (cancel_run_id run_id w) ≡ held m w
  cancel_run_id_held none w = refl
  cancel_run_id_held (some run_id) w = refl

  module _ (limits : Limits) where
    begin_held : (w : Worker) → held m (begin limits w) ≡ held m w
    unfolding begin
    begin_held w = ground arith

    Step-held :
        (w w' : Worker) (taken : List String)
        → Step limits w taken w'
        → held m w' ≡ held m w + tally m taken
    unfolding reclaim_stale read_new enter finish cancel set_stop
    Step-held w w' taken (begins e f) = omega (arith, begin_held w)
    Step-held w w' taken (reclaims reply e le) = receive_held m true (messages reply) w
    Step-held w w' taken (reads reply e le) = receive_held m false (messages reply) w
    Step-held w w' taken (enters lt) = omega (arith, enter_first_held w.waiting w refl)
    Step-held w w' taken (finishes task_id) =
        omega (arith, finish_taken_held (take_task task_id w.running) w task_id refl)
    Step-held w w' taken (cancels data_text) =
        omega (arith, cancel_run_id_held (parse_int data_text) w)
    Step-held w w' taken stops = omega arith

    -- The times that a worker has taken a message, from XAUTOCLAIM or XREADGROUP, are the times
    -- that it has acknowledged and deleted it and the tasks for it that wait for the semaphore or
    -- hold it, whatever the replies and the order of its tasks: no message that was taken is lost.
    pub Reach-held :
        (taken : List String) (w : Worker)
        → Reach limits taken w
        → tally m taken
          ≡ tally m w.dropped + tally m (messages_of w.waiting) + tally m (messages_of w.running)
    unfolding idle
    Reach-held taken w starts = refl
    Reach-held taken w (then_step {taken = before} {more = more} {w = v} r step) =
        omega (arith, Reach-held before v r, Step-held v w more step, tally-append m before more)
