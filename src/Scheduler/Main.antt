-- ===== src/Scheduler/Main.antt =====
-- The main loop of backend/scheduler/main.py: in each round the process asks for leadership, and ticks
-- if it leads. The handler of signals sets `_stop`; the metrics server and the sleep between rounds
-- are left out.
use distributed_asynchronous.Prelude.{
  ℕ, suc, Bool, true, false, ◌||◌, List, [], ◌∷◌, ◌++◌, if◌then◌else◌, is_some,
}
use distributed_asynchronous.Models.{Time, Database}
use distributed_asynchronous.Queue.{Command}
use distributed_asynchronous.Scheduler.Cron.{Croniter}
use distributed_asynchronous.Scheduler.Leader.Locks.{LockServer}
use distributed_asynchronous.Scheduler.Leader.{Leader, fresh, acquire, release}
use distributed_asynchronous.Scheduler.Tick.{Outcome, tick}

-- What a round meets: the time, the reply of ZRANGEBYSCORE, what the other processes do to the database
-- before it, and whether a signal comes before the next one.
pub record Round : Type 0 where
  pub now : Time
  pub due : List ℕ
  pub meanwhile : Database → Database
  pub signal : Bool

module _ (server : LockServer) (get_next : Croniter) (key orphan_requeue_after_sec : ℕ) where
  open server use {State}

  -- The process, the lock server and the database between two rounds. `failures` counts the exceptions
  -- that the loop has logged, and `is_leader` is the gauge SCHEDULER_IS_LEADER.
  pub record Scheduler : Type 0 where
    pub leader : Leader server
    pub stop : Bool
    pub is_leader : Bool
    pub failures : ℕ
    pub commands : List Command
    pub locks : State
    pub db : Database

  abbrev pub started : State → Database → Scheduler
  started s db = record {
    leader = fresh server;
    stop = false;
    is_leader = false;
    failures = 0;
    commands = [];
    locks = s;
    db = db;
  }

  abbrev pub ticked : Outcome → Scheduler → Scheduler
  ticked o p = record p {
    is_leader = true;
    failures = if is_some o.raised then suc p.failures else p.failures;
    commands = p.commands ++ o.commands;
    db = o.db;
  }

  abbrev pub led : Bool → Round → Scheduler → Scheduler
  led false r p = record p { is_leader = false }
  led true r p = ticked (tick get_next orphan_requeue_after_sec r.now r.due p.db) p

  -- The body of the loop, and what happens until the next test of `_stop`.
  unfoldable pub round : Round → Scheduler → Scheduler
  round r p =
      let (held, leader, locks) = acquire server key p.leader p.locks in
      let db' = r.meanwhile p.db in
      let p' = led held r (record p { leader = leader; locks = locks; db = db' }) in
      record p' { stop = p'.stop || r.signal }

  -- while not _stop
  unfoldable pub loop : List Round → Scheduler → Scheduler
  unfolding round
  loop [] p = p
  loop (r ∷ rounds) p = if p.stop then p else loop rounds (round r p)

  -- main, from the loop on
  unfoldable pub main : List Round → State → Database → Scheduler
  unfolding loop
  main rounds s db =
      let p = loop rounds (started s db) in
      let (leader, locks) = release server key p.leader p.locks in
      record p { leader = leader; locks = locks; is_leader = false }
