-- ===== src/Executors/Retry/Backoff.antt =====
-- The delays of backend/worker/executors/retry.py.
use native.Mathlib.Nat.{pow-suc}
use native.Mathlib.Numerals.{add-one}
use distributed_asynchronous.Prelude.{ℕ, zero, suc, ◌+◌, ◌-◌, ◌*◌, ◌^◌, ◌≤◌, ◌<◌, ◌≡◌, arith, min}
use distributed_asynchronous.Executors.Retry.{backoff_seconds}

backoff_pos :
    (cap a base : ℕ) → 0 < base → backoff_seconds cap (suc a) base ≡ min (base * 2 ^ a) cap
unfolding backoff_seconds
backoff_pos cap a base h = let same : suc a - 1 ≡ a = omega arith in rw same (ground arith)

-- With a positive base the delay after the first attempt is the base, and the one after each later
-- attempt is twice the one before, each up to the cap.
pub backoff_doubles :
    (cap attempt base : ℕ)
    → 1 ≤ attempt
    → 0 < base
    → (backoff_seconds cap 1 base ≡ min base cap)
      × (backoff_seconds cap (attempt + 1) base ≡ min (2 * backoff_seconds cap attempt base) cap)
backoff_doubles cap zero base h pos = absurd (omega arith)
backoff_doubles cap (suc a) base h pos = (
  rw (backoff_pos cap 0 base pos) (omega arith),
  rw (add-one (suc a), backoff_pos cap (suc a) base pos, backoff_pos cap a base pos, pow-suc)
      (omega arith),
)
