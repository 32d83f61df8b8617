-- ===== src/Scheduler/Leader/Locks.antt =====
-- What Leader of backend/scheduler/leader.py relies on of PostgreSQL: the documented behaviour of
-- sessions and of advisory locks that belong to a session.
use distributed_asynchronous.Prelude.{ℕ, ◌≡◌, ◌≢◌, Bool, true, false, Option, some}

pub record LockServer : Type 1 where
  pub State : Type 0
  -- A connection object of the client; each call of engine.connect() makes another one.
  pub Conn : Type 0
  -- engine.connect(), or `none` where it raises
  pub connect : State → Option (Conn × State)
  -- whether SELECT 1 succeeds on the session
  pub select_one : Conn → State → Bool
  -- SELECT pg_try_advisory_lock(key); `none` where it raises
  pub try_advisory_lock : ℕ → Conn → State → Option Bool × State
  pub advisory_unlock : ℕ → Conn → State → State
  pub close : Conn → State → State
  -- Whether the connection was ever made, and which one holds a lock.
  pub is_known : Conn → State → Bool
  pub holder : ℕ → State → Option Conn

module _ (server : LockServer) where
  open server use {
    State, Conn, connect, select_one, try_advisory_lock, advisory_unlock, close, is_known, holder,
  }

  -- What a session keeps while others act: a dead session does not answer again, and one that still
  -- answers has kept its locks.
  pub record Kept (d : Conn) (s s' : State) : Type 0 where
    pub known : is_known d s ≡ true → is_known d s' ≡ true
    pub answers : select_one d s' ≡ true → select_one d s ≡ true
    pub holds : (key : ℕ) → select_one d s' ≡ true → holder key s ≡ some d → holder key s' ≡ some d

  pub record Locks (Elsewhere : State → State → Type 0) : Type 0 where
    pub connect-fresh : (s s' : State) (c : Conn) → connect s ≡ some (c, s') → is_known c s ≡ false
    pub connect-known : (s s' : State) (c : Conn) → connect s ≡ some (c, s') → is_known c s' ≡ true
    pub connect-Kept :
        (s s' : State) (c d : Conn) → connect s ≡ some (c, s') → is_known d s ≡ true → Kept d s s'
    pub try-Kept :
        (key : ℕ) (c d : Conn) (s : State)
        → is_known d s ≡ true
        → Kept d s (try_advisory_lock key c s).1
    -- The lock is granted to one session at a time.
    pub try-holder :
        (key : ℕ) (c : Conn) (s : State)
        → (try_advisory_lock key c s).0 ≡ some true
        → select_one c (try_advisory_lock key c s).1 ≡ true
        → holder key (try_advisory_lock key c s).1 ≡ some c
    pub unlock-known :
        (key : ℕ) (c d : Conn) (s : State)
        → is_known d s ≡ true
        → is_known d (advisory_unlock key c s) ≡ true
    pub unlock-Kept :
        (key : ℕ) (c d : Conn) (s : State)
        → is_known d s ≡ true
        → c ≢ d
        → Kept d s (advisory_unlock key c s)
    pub close-known : (c d : Conn) (s : State) → is_known d s ≡ true → is_known d (close c s) ≡ true
    pub close-Kept : (c d : Conn) (s : State) → is_known d s ≡ true → c ≢ d → Kept d s (close c s)
    -- What happens to the server otherwise: other clients act, and sessions are lost.
    pub elsewhere-Kept :
        (s s' : State) (d : Conn) → Elsewhere s s' → is_known d s ≡ true → Kept d s s'
