-- ===== src/Models/Ticks.antt =====
-- The constraint uq_job_run_tick of backend/common/models.py: no two runs of one job stand for the
-- same scheduled tick. A run with no tick clashes with none.
use distributed_asynchronous.Prelude.{
  ◌≡◌, refl, Bool, false, ◌&&◌, Option, none, some, List, [], ◌∷◌, ◌++◌, arith, ◌==◌, All,
  All-append, is_some, Bool-cases, inl, inr,
}
use distributed_asynchronous.Table.{select, update_where, first, All-select}
use distributed_asynchronous.Models.{Time, JobRun}

-- SQL's equality: NULL is equal to nothing.
abbrev pub is_tick : Option Time → Time → Bool
is_tick none t = false
is_tick (some u) t = u == t

abbrev pub same_tick : Option Time → Option Time → Bool
same_tick a none = false
same_tick a (some t) = is_tick a t

abbrev pub clashes : JobRun → JobRun → Bool
clashes r s = r.job_id == s.job_id && same_tick r.scheduled_for s.scheduled_for

abbrev pub UniqueTicks : List JobRun → Type 0
UniqueTicks [] = Unit
UniqueTicks (r ∷ rs) = All (λ s. clashes r s ≡ false) rs × UniqueTicks rs

-- What an update must leave alone.
abbrev pub KeepsTick : (JobRun → JobRun) → Type 0
KeepsTick f =
    (r : JobRun)
    → ((f r).id ≡ r.id) × ((f r).job_id ≡ r.job_id) × ((f r).scheduled_for ≡ r.scheduled_for)

clashes-update :
    (test : JobRun → Bool) (f : JobRun → JobRun)
    → KeepsTick f
    → (r r' : JobRun) → r'.job_id ≡ r.job_id
    → r'.scheduled_for ≡ r.scheduled_for
    → (rs : List JobRun) → All (λ s. clashes r s ≡ false) rs
    → All (λ s. clashes r' s ≡ false) (update_where test f rs)
unfolding update_where
clashes-update test f keep r r' j t [] h = tt
clashes-update test f keep r r' j t (s ∷ rs) h =
    (ground (arith, keep s), clashes-update test f keep r r' j t rs h.1)

pub UniqueTicks-update :
    (test : JobRun → Bool) (f : JobRun → JobRun) (rs : List JobRun)
    → KeepsTick f
    → UniqueTicks rs
    → UniqueTicks (update_where test f rs)
unfolding update_where
UniqueTicks-update test f [] keep u = tt
UniqueTicks-update test f (r ∷ rs) keep u = elim (Bool-cases (test r)) [
  | inl e ↦ rw e (
    clashes-update test f keep r (f r) (keep r).1 (keep r).2 rs u.0,
    UniqueTicks-update test f rs keep u.1,
  )
  | inr e ↦
      rw e (clashes-update test f keep r r refl refl rs u.0, UniqueTicks-update test f rs keep u.1)
]

pub UniqueTicks-select :
    (test : JobRun → Bool) (rs : List JobRun) → UniqueTicks rs → UniqueTicks (select test rs)
unfolding select
UniqueTicks-select test [] u = tt
UniqueTicks-select test (r ∷ rs) u = elim (Bool-cases (test r)) [
  | inl e ↦ rw e (All-select (λ s. clashes r s ≡ false) test rs u.0, UniqueTicks-select test rs u.1)
  | inr e ↦ rw e (UniqueTicks-select test rs u.1)
]

pub UniqueTicks-append :
    (rs : List JobRun) (run : JobRun)
    → All (λ r. clashes r run ≡ false) rs
    → UniqueTicks rs
    → UniqueTicks (rs ++ run ∷ [])
UniqueTicks-append [] run h u = (tt, tt)
UniqueTicks-append (r ∷ rs) run h u = (
  All-append (λ s. clashes r s ≡ false) rs (run ∷ []) u.0 (h.0, tt),
  UniqueTicks-append rs run h.1 u.1,
)

-- A run with no tick.
pub clashes-none :
    (rs : List JobRun) (run : JobRun)
    → run.scheduled_for ≡ none
    → All (λ r. clashes r run ≡ false) rs
clashes-none [] run e = tt
clashes-none (r ∷ rs) run e = (ground arith, clashes-none rs run e)

-- A tick that no run of the job has.
pub clashes-free :
    (rs : List JobRun) (run : JobRun) (t : Time)
    → run.scheduled_for ≡ some t
    → is_some (first (λ r. r.job_id == run.job_id && is_tick r.scheduled_for t) rs) ≡ false
    → All (λ r. clashes r run ≡ false) rs
unfolding first
clashes-free [] run t e h = tt
clashes-free (r ∷ rs) run t e h = (ground arith, clashes-free rs run t e (ground arith))
