-- ===== src/Scheduler/Leader/States.antt =====
-- The states of a Leader of backend/scheduler/leader.py between its calls.
use distributed_asynchronous.Prelude.{
  ℕ, ◌≡◌, refl, Bool, true, false, ◌&&◌, Option, none, some, arith, inl, inr, Bool-cases, is_some,
}
use distributed_asynchronous.Scheduler.Leader.Locks.{LockServer}
use distributed_asynchronous.Scheduler.Leader.{
  Leader, reset, connection_alive, with_reply, attempt, acquire,
}

module _ (server : LockServer) where
  open server use {State, Conn}

  -- A leader keeps its session open, and a standby keeps none.
  abbrev pub IsSteady : Leader server → Type 0
  IsSteady l = l.is_leader ≡ is_some l.conn

  -- What a call of `acquire` answers and leaves: the answer is the new leadership state, and the
  -- state is a steady one.
  abbrev pub Acquired : Bool × Leader server × State → Type 0
  Acquired (b, l, s) = (l.is_leader ≡ b) × IsSteady l

  with_reply-Acquired :
      (c : Conn) (reply : Option Bool) (s : State) → Acquired (with_reply server c reply s)
  unfolding with_reply reset
  with_reply-Acquired c none s = (refl, refl)
  with_reply-Acquired c (some true) s = (refl, refl)
  with_reply-Acquired c (some false) s = (refl, refl)

  attempt-Acquired :
      (key : ℕ) (l : Leader server) (s : State)
      → Acquired (attempt server key (reset server l s).0 (reset server l s).1)
  unfolding attempt reset
  attempt-Acquired key l s = go (server.connect (reset server l s).1) refl
    where
      go :
          (o : Option (Conn × State))
          → server.connect (reset server l s).1 ≡ o
          → Acquired (attempt server key (reset server l s).0 (reset server l s).1)
      go none e = rw (e, attempt) (refl, refl)
      go (some (c, s')) e =
          rw (e, attempt)
            (with_reply-Acquired c (server.try_advisory_lock key c s').0
              (server.try_advisory_lock key c s').1)

  -- From a steady state, whatever the database replies or raises: `acquire` answers whether the
  -- process now leads, and leaves a steady state, in which a leader has a session and a standby none.
  pub acquire-Acquired :
      (key : ℕ) (l : Leader server) (s : State) → IsSteady l → Acquired (acquire server key l s)
  unfolding acquire
  acquire-Acquired key l s h = elim (Bool-cases (l.is_leader && connection_alive server l s)) [
    | inl leads ↦ rw leads (ground arith, h)
    | inr stands_by ↦ rw stands_by (attempt-Acquired key l s)
  ]
