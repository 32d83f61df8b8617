-- ===== src/Scheduler/Leader.antt =====
-- backend/scheduler/leader.py: class Leader, over the advisory locks of a PostgreSQL server.
pub mod Locks
pub mod States
pub mod Election
pub mod Replicas
use distributed_asynchronous.Prelude.{ℕ, Bool, true, false, ◌&&◌, Option, none, some, if◌then◌else◌}
use Locks.{LockServer}

module _ (server : LockServer) where
  open server use {State, Conn, connect, select_one, try_advisory_lock, advisory_unlock, close}

  -- The fields `_conn` and `is_leader`; the engine is `server`.
  pub record Leader : Type 0 where
    pub conn : Option Conn
    pub is_leader : Bool

  abbrev pub fresh : Leader
  fresh = record { conn = none; is_leader = false }

  abbrev close_conn : Option Conn → State → State
  close_conn none s = s
  close_conn (some c) s = close c s

  unfoldable pub reset : Leader → State → Leader × State
  reset l s = (record { conn = none; is_leader = false }, close_conn l.conn s)

  unfoldable pub connection_alive : Leader → State → Bool
  connection_alive l s = elim l.conn [ none ↦ false | some c ↦ select_one c s ]

  -- The end of `acquire`, on the reply of pg_try_advisory_lock; `none` is a database error.
  unfoldable pub with_reply : Conn → Option Bool → State → Bool × Leader × State
  with_reply c none s =
      let (l, s') = reset (record { conn = some c; is_leader = false }) s in (false, l, s')
  with_reply c (some true) s = (true, record { conn = some c; is_leader = true }, s)
  with_reply c (some false) s =
      let (l, s') = reset (record { conn = some c; is_leader = false }) s in (false, l, s')

  -- Connecting and attempting the lock, after the reset.
  unfoldable pub attempt : ℕ → Leader → State → Bool × Leader × State
  attempt key l s = elim (connect s) [
    | none ↦ let (l', s') = reset l s in (false, l', s')
    | some (c, s') ↦ let (reply, s'') = try_advisory_lock key c s' in with_reply c reply s''
  ]

  unfoldable pub acquire : ℕ → Leader → State → Bool × Leader × State
  unfolding attempt with_reply reset connection_alive
  acquire key l s =
      if l.is_leader && connection_alive l s
      then (true, l, s)
      else let (l', s') = reset l s in attempt key l' s'

  abbrev unlock_conn : ℕ → Leader → State → State
  unlock_conn key l s = elim l.conn [
    | none ↦ s
    | some c ↦ if l.is_leader then advisory_unlock key c s else s
  ]

  unfoldable pub release : ℕ → Leader → State → Leader × State
  unfolding reset
  release key l s = reset l (unlock_conn key l s)
