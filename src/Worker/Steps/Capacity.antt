-- ===== src/Worker/Steps/Capacity.antt =====
-- How many runs a worker takes at a time.
use distributed_asynchronous.Prelude.{
  ℕ, suc, ◌+◌, ◌≤◌, ◌<◌, ◌≡◌, refl, ap, ◌∙◌, ◌==◌, arith, String, Bool, true, false, Option, none,
  some, List, [], ◌∷◌, min, length, length-append, if◌then◌else◌,
}
use distributed_asynchronous.Models.Json.{ℤ}
use distributed_asynchronous.Auth.Text.{parse_int}
use distributed_asynchronous.Worker.{
  Message, Limits, Task, Phase, top, reclaiming, reading, Worker, idle, inflight, messages,
  parse_run_id, spawn, drop, take_in, receive, count_of, begin, reclaim_stale, read_new,
  enter_first, cancel_run_id, enter, take_task, keep_task, finish_taken, finish, cancel, set_stop,
}
use distributed_asynchronous.Worker.Steps.{
  Step, begins, reclaims, reads, enters, finishes, cancels, stops, Reach, starts, then_step,
}

-- A message adds at most one task, which waits.
take_in_grows :
    (message : Message) (run_id : Option ℤ) (b : Bool) (w : Worker)
    → (inflight (take_in message run_id b w) ≤ inflight w + 1)
      × ((take_in message run_id b w).running ≡ w.running)
unfolding spawn drop
take_in_grows message none b w = (omega arith, refl)
take_in_grows message (some run_id) b w =
    let longer = length-append w.waiting (
      record {
        task_id = w.next_task;
        message_id = message.message_id;
        run_id = run_id;
        allow_running = b;
      }
      ∷ []) in
    (omega (arith, longer), refl)

receive_grows :
    (b : Bool) (reply : List Message) (w : Worker)
    → (inflight (receive b reply w) ≤ inflight w + length reply)
      × ((receive b reply w).running ≡ w.running)
unfolding receive
receive_grows b [] w = (omega arith, refl)
receive_grows b (message ∷ rest) w =
    let one = take_in_grows message (parse_run_id message.fields) b w in
    let more = receive_grows b rest (take_in message (parse_run_id message.fields) b w) in
    (omega (arith, one.0, more.0), more.1 ∙ one.1)

take_task_shorter :
    (task_id : ℕ) (tasks others : List Task) (task : Task)
    → take_task task_id tasks ≡ some (task, others)
    → length tasks ≡ suc (length others)
unfolding take_task
take_task_shorter task_id [] others task h = ground arith
take_task_shorter task_id (t ∷ tasks) others task h =
    go (take_task task_id tasks) refl (λ rest. take_task_shorter task_id tasks rest) h
  where
    go :
        (rest : Option (Task × List Task))
        → take_task task_id tasks ≡ rest
        → ((left : List Task) (found : Task)
            → take_task task_id tasks ≡ some (found, left)
            → length tasks ≡ suc (length left))
        → (if t.task_id == task_id then some (t, tasks) else keep_task t rest) ≡ some (task, others)
        → length (t ∷ tasks) ≡ suc (length others)
    go none e ih k = ground arith
    go (some (found, left)) e ih k = ground (arith, ih left found e)

-- The tasks that the phase of the loop may still add.
abbrev pub to_come : Phase → ℕ
to_come top = 0
to_come (reclaiming count) = count + count
to_come (reading count) = count

abbrev IsWithin : Limits → Worker → Type 0
IsWithin limits w =
    (length w.running ≤ limits.worker_concurrency)
    × (inflight w + to_come w.phase
        ≤ limits.worker_concurrency + min limits.worker_concurrency limits.worker_read_batch)

module _ (limits : Limits) where
  finish_taken-IsWithin :
      (found : Option (Task × List Task)) (w : Worker) (task_id : ℕ)
      → take_task task_id w.running ≡ found
      → IsWithin limits w
      → IsWithin limits (finish_taken found w)
  unfolding drop
  finish_taken-IsWithin none w task_id e h = h
  finish_taken-IsWithin (some (task, others)) w task_id e h =
      let shorter = take_task_shorter task_id w.running others task e in omega arith

  enter_first-IsWithin :
      (waiting : List Task) (w : Worker)
      → w.waiting ≡ waiting
      → length w.running < limits.worker_concurrency
      → IsWithin limits w
      → IsWithin limits (enter_first waiting w)
  enter_first-IsWithin [] w e lt h = h
  enter_first-IsWithin (task ∷ rest) w e lt h =
      let longer = length-append w.running (task ∷ []) in
      let before : length w.waiting ≡ suc (length rest) = ap length e in (omega arith, omega arith)

  cancel_run_id-IsWithin :
      (run_id : Option ℤ) (w : Worker)
      → IsWithin limits w
      → IsWithin limits (cancel_run_id run_id w)
  cancel_run_id-IsWithin none w h = h
  cancel_run_id-IsWithin (some run_id) w h = h

  Step-IsWithin :
      (w w' : Worker) (taken : List String)
      → Step limits w taken w'
      → IsWithin limits w
      → IsWithin limits w'
  unfolding begin count_of reclaim_stale read_new enter finish cancel set_stop
  Step-IsWithin w w' taken (begins e f) h = ground (arith, e)
  Step-IsWithin w w' taken (reclaims {count} reply e le) h =
      let (grows, same) = receive_grows true (messages reply) w in ground (arith, e, grows, same)
  Step-IsWithin w w' taken (reads {count} reply e le) h =
      let (grows, same) = receive_grows false (messages reply) w in ground (arith, e, grows, same)
  Step-IsWithin w w' taken (enters lt) h = enter_first-IsWithin w.waiting w refl lt h
  Step-IsWithin w w' taken (finishes task_id) h =
      finish_taken-IsWithin (take_task task_id w.running) w task_id refl h
  Step-IsWithin w w' taken (cancels data_text) h = cancel_run_id-IsWithin (parse_int data_text) w h
  Step-IsWithin w w' taken stops h = h

  Reach-IsWithin : (taken : List String) (w : Worker) → Reach limits taken w → IsWithin limits w
  unfolding idle
  Reach-IsWithin taken w starts = (omega arith, omega arith)
  Reach-IsWithin taken w (then_step {taken = before} {more = more} {w = v} r step) =
      Step-IsWithin v w more step (Reach-IsWithin before v r)

  -- A worker never executes more than worker_concurrency runs at a time, and the runs it has taken
  -- from Redis and not finished number at most worker_concurrency and one more batch, the smaller
  -- of worker_concurrency and worker_read_batch, whatever the replies and the order of its tasks.
  pub Reach-capacity :
      (taken : List String) (w : Worker)
      → Reach limits taken w
      → (length w.running ≤ limits.worker_concurrency)
        × (inflight w
            ≤ limits.worker_concurrency + min limits.worker_concurrency limits.worker_read_batch)
  Reach-capacity taken w r = let (run, all) = Reach-IsWithin taken w r in (run, omega arith)
