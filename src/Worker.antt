-- ===== src/Worker.antt =====
-- backend/worker/main.py: the loop that takes messages of the dispatch stream and runs them, on the
-- state of one worker. The acknowledgements that it sends are assumed to reach Redis.
pub mod Steps
pub mod Messages
use distributed_asynchronous.Prelude.{
  ℕ, suc, ◌+◌, ◌-◌, ◌==◌, String, Bool, true, false, Option, none, some, List, [], ◌∷◌, ◌++◌, min,
  leb, ltb, if◌then◌else◌, codes, length, str_eq,
}
use distributed_asynchronous.Models.Json.{ℤ, pos, negsuc}
use distributed_asynchronous.Auth.Text.{parse_int}

-- A message of the stream: its id and its fields.
pub record Message : Type 0 where
  pub message_id : String
  pub fields : List (String × String)

abbrev field_value : String → List (String × String) → Option String
field_value key [] = none
field_value key ((name, value) ∷ rest) =
    if str_eq name key then some value else field_value key rest

abbrev int_of_field : Option String → Option ℤ
int_of_field none = none
int_of_field (some value) = parse_int (codes value)

-- _parse_run_id
unfoldable pub parse_run_id : List (String × String) → Option ℤ
parse_run_id fields = int_of_field (field_value "run_id" fields)

-- The settings that the loop reads.
pub record Limits : Type 0 where
  pub worker_concurrency : ℕ
  pub worker_read_batch : ℕ

-- A call of `handle` in a task of the event loop.
pub record Task : Type 0 where
  pub task_id : ℕ
  pub message_id : String
  pub run_id : ℤ
  pub allow_running : Bool

-- Where the main loop stands: at the test of `stop`, or waiting for XAUTOCLAIM or XREADGROUP with a
-- count.
pub data Phase : Type 0 where
  top : Phase
  reclaiming reading : (count : ℕ) → Phase

-- `inflight` is `waiting ++ running`: the tasks before the semaphore, in their order, and those that
-- hold it. `dropped` has the messages that were acknowledged and deleted; `canceled` the tasks on
-- which cancel() was called.
pub record Worker : Type 0 where
  pub waiting : List Task
  pub running : List Task
  pub inflight_by_run : List (ℤ × ℕ)
  pub canceled : List ℕ
  pub dropped : List String
  pub next_task : ℕ
  pub stop : Bool
  pub phase : Phase

unfoldable pub idle : Worker
idle = record {
  waiting = [];
  running = [];
  inflight_by_run = [];
  canceled = [];
  dropped = [];
  next_task = 0;
  stop = false;
  phase = top;
}

-- len(inflight)
abbrev pub inflight : Worker → ℕ
inflight w = length w.waiting + length w.running

unfoldable pub spawn : (message_id : String) (run_id : ℤ) (allow_running : Bool) → Worker → Worker
spawn message_id run_id allow_running w =
    let task : Task = record {
      task_id = w.next_task;
      message_id = message_id;
      run_id = run_id;
      allow_running = allow_running;
    } in
    record w { waiting = w.waiting ++ task ∷ []; next_task = w.next_task + 1 }

-- xack, xdel
unfoldable pub drop : (message_id : String) → Worker → Worker
drop message_id w = record w { dropped = w.dropped ++ message_id ∷ [] }

abbrev pub take_in : Message → Option ℤ → Bool → Worker → Worker
take_in message none allow_running w = drop message.message_id w
take_in message (some run_id) allow_running w = spawn message.message_id run_id allow_running w

-- The loops over the messages of a reply: a message without a run is dropped.
unfoldable pub receive : Bool → List Message → Worker → Worker
receive allow_running [] w = w
receive allow_running (message ∷ rest) w =
    receive allow_running rest (take_in message (parse_run_id message.fields) allow_running w)

-- The messages of a reply; `none` where the command raised.
abbrev pub messages : Option (List Message) → List Message
messages none = []
messages (some reply) = reply

module _ (limits : Limits) where
  -- min(capacity, settings.worker_read_batch)
  unfoldable pub count_of : Worker → ℕ
  count_of w = min (limits.worker_concurrency - inflight w) limits.worker_read_batch

  -- The start of an iteration, where `stop` is not set.
  unfoldable pub begin : Worker → Worker
  begin w =
      if leb limits.worker_concurrency (inflight w)
      then w
      else record w { phase = reclaiming (count_of w) }

-- _reclaim_stale, with the reply of XAUTOCLAIM.
unfoldable pub reclaim_stale : (count : ℕ) → Option (List Message) → Worker → Worker
reclaim_stale count reply w =
    let w' = receive true (messages reply) w in record w' { phase = reading count }

-- The rest of the iteration, with the reply of XREADGROUP.
unfoldable pub read_new : Option (List Message) → Worker → Worker
read_new reply w = let w' = receive false (messages reply) w in record w' { phase = top }

-- dict operations on `inflight_by_run`
abbrev same_run : ℤ → ℤ → Bool
same_run (pos m) (pos n) = m == n
same_run (pos m) (negsuc n) = false
same_run (negsuc m) (pos n) = false
same_run (negsuc m) (negsuc n) = m == n

unfoldable pub get_task : ℤ → List (ℤ × ℕ) → Option ℕ
get_task run_id [] = none
get_task run_id ((key, task_id) ∷ rest) =
    if same_run key run_id then some task_id else get_task run_id rest

unfoldable pub set_task : ℤ → ℕ → List (ℤ × ℕ) → List (ℤ × ℕ)
set_task run_id task_id [] = (run_id, task_id) ∷ []
set_task run_id task_id ((key, other) ∷ rest) =
    if same_run key run_id
    then (key, task_id) ∷ rest
    else (key, other) ∷ set_task run_id task_id rest

-- if inflight_by_run.get(run_id) is task: inflight_by_run.pop(run_id, None)
unfoldable pub pop_task : ℤ → ℕ → List (ℤ × ℕ) → List (ℤ × ℕ)
pop_task run_id task_id [] = []
pop_task run_id task_id ((key, other) ∷ rest) =
    let rest' = pop_task run_id task_id rest in
    if same_run key run_id
    then (if other == task_id then rest else (key, other) ∷ rest)
    else (key, other) ∷ rest'

abbrev pub enter_first : List Task → Worker → Worker
enter_first [] w = w
enter_first (task ∷ rest) w = record w {
  waiting = rest;
  running = w.running ++ task ∷ [];
  inflight_by_run = set_task task.run_id task.task_id w.inflight_by_run;
}

-- The first waiting task enters the semaphore and is entered in `inflight_by_run`.
unfoldable pub enter : Worker → Worker
enter w = enter_first w.waiting w

-- The task with an id, taken out of a list of tasks.
abbrev pub keep_task : Task → Option (Task × List Task) → Option (Task × List Task)
keep_task task none = none
keep_task task (some (found, others)) = some (found, task ∷ others)

unfoldable pub take_task : (task_id : ℕ) → List Task → Option (Task × List Task)
take_task task_id [] = none
take_task task_id (task ∷ tasks) =
    let rest = keep_task task (take_task task_id tasks) in
    if task.task_id == task_id then some (task, tasks) else rest

abbrev pub finish_taken : Option (Task × List Task) → Worker → Worker
finish_taken none w = w
finish_taken (some (task, others)) w = drop task.message_id (record w {
  running = others;
  inflight_by_run = pop_task task.run_id task.task_id w.inflight_by_run;
})

-- `process_run` has returned, raised or was canceled in a task: its `finally`.
unfoldable pub finish : (task_id : ℕ) → Worker → Worker
finish task_id w = finish_taken (take_task task_id w.running) w

abbrev canceled_task : Option ℕ → List ℕ → List ℕ
canceled_task none ids = ids
canceled_task (some task_id) ids = ids ++ task_id ∷ []

abbrev pub cancel_run_id : Option ℤ → Worker → Worker
cancel_run_id none w = w
cancel_run_id (some run_id) w = record w {
  canceled = canceled_task (get_task run_id w.inflight_by_run) w.canceled;
}

-- _cancel_listener, for the data of one message
unfoldable pub cancel : (data_text : List ℕ) → Worker → Worker
cancel data_text w = cancel_run_id (parse_int data_text) w

-- stop.set()
unfoldable pub set_stop : Worker → Worker
set_stop w = record w { stop = true }
