-- ===== src/Queue/Server.antt =====
-- What the program relies on of a Redis server: the documented behaviour of the commands that it
-- sends, over a dispatch stream of run ids and a set of delayed run ids with scores.
use distributed_asynchronous.Prelude.{
  ℕ, ◌≡◌, Bool, Option, none, some, List, [], ◌∷◌, ◌++◌, ◌==◌, if◌then◌else◌, contains, leb,
  occurrences, ◌≤◌,
}
use distributed_asynchronous.Models.{Time}

abbrev pub is_due : Time → Option Time → Bool
is_due now none = Bool.false
is_due now (some t) = leb t now

pub record Redis : Type 1 where
  pub State : Type 0
  -- The run ids in the stream, oldest first (XRANGE), and the score of a member (ZSCORE).
  pub stream : State → List ℕ
  pub zscore : State → ℕ → Option Time
  pub zrangebyscore : State → Time → List ℕ
  pub xadd : State → ℕ → State
  pub zadd : State → ℕ → Time → State
  pub zrem : State → ℕ → State
  pub stream-xadd : (s : State) (r : ℕ) → stream (xadd s r) ≡ stream s ++ r ∷ []
  pub zscore-xadd : (s : State) (r k : ℕ) → zscore (xadd s r) k ≡ zscore s k
  pub stream-zadd : (s : State) (r : ℕ) (t : Time) → stream (zadd s r t) ≡ stream s
  pub zscore-zadd :
      (s : State) (r : ℕ) (t : Time) (k : ℕ)
      → zscore (zadd s r t) k ≡ (if r == k then some t else zscore s k)
  pub stream-zrem : (s : State) (r : ℕ) → stream (zrem s r) ≡ stream s
  pub zscore-zrem :
      (s : State) (r k : ℕ) → zscore (zrem s r) k ≡ (if r == k then none else zscore s k)
  -- ZRANGEBYSCORE -inf now lists the members whose score is at most `now`.
  pub contains-zrangebyscore :
      (s : State) (now : Time) (k : ℕ) → contains (zrangebyscore s now) k ≡ is_due now (zscore s k)
  -- A member is in the set once, and listed at most once.
  pub zrangebyscore_once :
      (s : State) (now : Time) (k : ℕ) → occurrences k (zrangebyscore s now) ≤ 1
