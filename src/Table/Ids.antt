-- ===== src/Table/Ids.antt =====
-- The ids of the rows that a statement selects.
use distributed_asynchronous.Prelude.{
  ℕ, suc, ◌≡◌, refl, Bool, false, none, some, List, [], ◌∷◌, ◌++◌, map, arith, contains, All,
  All-map, ◌≤◌,
}
use distributed_asynchronous.Table.Defs.{select}
use distributed_asynchronous.Table.Laws.{by_key, Ascending, by_key_below}

module _ {ℓ} {A : Type ℓ} (key : A → ℕ) where
  pub contains-select :
      (lo : ℕ) (xs : List A) (hi k : ℕ) (test : A → Bool)
      → Ascending key lo xs hi
      → contains (map key (select test xs)) k
        ≡ (elim (by_key key k xs) [ none ↦ false | some x ↦ test x ])
  unfolding select by_key
  contains-select lo [] hi k test h = refl
  contains-select lo (x ∷ xs) hi k test h = ground (
    arith,
    contains-select (suc (key x)) xs hi k test h.1,
    by_key_below key (suc (key x)) xs hi k h.1,
  )

  -- A row is found under its id.
  pub found_self :
      (lo : ℕ) (xs : List A) (hi : ℕ)
      → Ascending key lo xs hi
      → All (λ x. (lo ≤ key x) × (by_key key (key x) xs ≡ some x)) xs
  unfolding by_key
  found_self lo [] hi h = tt
  found_self lo (x ∷ xs) hi h = (
    (h.0, ground arith),
    All-map _ _ xs (λ y p. (omega arith, ground arith)) (found_self (suc (key x)) xs hi h.1),
  )

pub select-append {ℓ} :
    {A : Type ℓ}
    → (test : A → Bool) (xs ys : List A) → select test (xs ++ ys) ≡ select test xs ++ select test ys
unfolding select
select-append test [] ys = refl
select-append test (x ∷ xs) ys = ground (arith, select-append test xs ys)
