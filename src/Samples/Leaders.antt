-- ===== src/Samples/Leaders.antt =====
-- The theorems on leader election, at a server with one lock.
use distributed_asynchronous.Prelude.{
  ℕ, ◌+◌, ◌≡◌, ◌≢◌, refl, Bool, true, false, not, ◌&&◌, ◌||◌, Option, none, some, arith, ltb, ◌==◌,
  if◌then◌else◌,
}
use distributed_asynchronous.Scheduler.Leader.{
  fresh, acquire, reset, connection_alive, attempt, with_reply,
}
use distributed_asynchronous.Scheduler.Leader.Locks.{LockServer, Kept, Locks}
use distributed_asynchronous.Scheduler.Leader.Replicas.{
  Replicas, update, acquires, Reach, here, next, Leads, one_leader,
}

-- The session that holds the lock, the number of connections so far, and the sessions that are lost.
pub record Pg : Type 0 where
  held : Option ℕ
  made : ℕ
  lost : ℕ → Bool

abbrev pub unlocked : Pg
unlocked = record { held = none; made = 0; lost = λ c. false }

abbrev freed : ℕ → Option ℕ → Option ℕ
freed c none = none
freed c (some h) = if h == c then none else some h

-- A session is lost, by a close or by a failure.
abbrev lose : ℕ → Pg → Pg
lose c s = record s { held = freed c s.held; lost = λ d. d == c || s.lost d }

abbrev try_lock : ℕ → Pg → Option Bool × Pg
try_lock c s = if s.lost c then (none, s) else elim s.held [
  | none ↦ (some true, record s { held = some c })
  | some h ↦ (some (h == c), s)
]

abbrev pub one_lock : LockServer
one_lock = record {
  State = Pg;
  Conn = ℕ;
  connect =
      λ s. some (s.made, record s { made = s.made + 1; lost = λ d. not (d == s.made) && s.lost d });
  select_one = λ c s. not (s.lost c);
  try_advisory_lock = λ key c s. try_lock c s;
  advisory_unlock = λ key c s. record s { held = freed c s.held };
  close = λ c s. lose c s;
  is_known = λ c s. ltb c s.made;
  holder = λ key s. s.held;
}

abbrev Loses : Pg → Pg → Type 0
Loses s s' = (c : ℕ) × (s' ≡ lose c s)

freed_other : (c d : ℕ) (o : Option ℕ) → c ≢ d → o ≡ some d → freed c o ≡ some d
freed_other c d o ne e = rw e (ground arith)

lose-Kept : (c d : ℕ) (s : Pg) → c ≢ d → Kept one_lock d s (lose c s)
lose-Kept c d s ne = record {
  known = λ h. h;
  answers = λ h. ground arith;
  holds = λ key a h. freed_other c d s.held ne h;
}

-- A session that is lost does not answer, whatever it held.
lose_own : (c d : ℕ) (s : Pg) → Kept one_lock d s (lose c s)
lose_own c d s = record {
  known = λ h. h;
  answers = λ h. ground arith;
  holds = λ key a h. rw h (ground arith);
}

try-Kept_lem : (c d : ℕ) (s : Pg) → Kept one_lock d s (try_lock c s).1
try-Kept_lem c d s = record {
  known = λ h. ground arith;
  answers = λ h. ground arith;
  holds = λ key a h. ground arith;
}

laws : Locks one_lock Loses
laws = record {
  connect-fresh = λ s s' c e. ground arith;
  connect-known = λ s s' c e. ground arith;
  connect-Kept = λ s s' c d e k. record {
    known = λ h. ground arith;
    answers = λ h. ground arith;
    holds = λ key a h. ground arith;
  };
  try-Kept = λ key c d s k. try-Kept_lem c d s;
  try-holder = λ key c s h a. ground arith;
  unlock-known = λ key c d s h. h;
  unlock-Kept = λ key c d s k ne. record {
    known = λ h. h;
    answers = λ h. h;
    holds = λ key' a h. freed_other c d s.held ne h;
  };
  close-known = λ c d s h. h;
  close-Kept = λ c d s k ne. lose-Kept c d s ne;
  elsewhere-Kept = λ s s' d w k. rw (w.1) (lose_own w.0 d s);
}

abbrev call : Replicas one_lock → Pg → ℕ → Replicas one_lock
call ls s i = update one_lock ls i (acquire one_lock 1 (ls i) s).1

abbrev called : Replicas one_lock → Pg → ℕ → Pg
called ls s i = (acquire one_lock 1 (ls i) s).2

abbrev start : Replicas one_lock
start i = fresh one_lock

-- Scheduler 0 calls `acquire`, and then scheduler 1 does, which stands by.
both_called :
    Reach one_lock 1 Loses unlocked
      (call (call start unlocked 0) (called start unlocked 0) 1)
      (called (call start unlocked 0) (called start unlocked 0) 1)
both_called = next (next here (acquires 0)) (acquires 1)

first-Leads :
    Leads one_lock 1 Loses laws
      (call (call start unlocked 0) (called start unlocked 0) 1)
      (called (call start unlocked 0) (called start unlocked 0) 1)
      0
unfolding acquire attempt with_reply reset connection_alive
first-Leads = (refl, refl)

one_leader_example : ◌≡◌ {A = ℕ} 0 0
one_leader_example = one_leader one_lock 1 Loses laws 0 0 both_called first-Leads first-Leads
