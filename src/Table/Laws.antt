-- ===== src/Table/Laws.antt =====
-- What updates and insertions do to look-ups by id, and tables whose ids ascend.
use distributed_asynchronous.Prelude.{
  ℕ, suc, ◌≤◌, ◌<◌, ◌≡◌, refl, inl, inr, Bool, true, false, ◌&&◌, Option, none, some, List, [], ◌∷◌,
  ◌++◌, arith, ==-refl, ◌==◌, if◌then◌else◌, All, Bool-cases,
}
use mathlib.Core.Option
use distributed_asynchronous.Table.Defs.{select, first, update_where, rowcount, earliest}

module _ {ℓ} {A : Type ℓ} (key : A → ℕ) where
  -- The row with an id.
  unfoldable pub by_key : ℕ → List A → Option A
  unfolding first
  by_key k xs = first (λ x. key x == k) xs

  -- An update that keeps the keys maps the row that a look-up finds.
  pub by_key-update_where :
      (test : A → Bool) (f : A → A) (k : ℕ) (xs : List A)
      → ((x : A) → key (f x) ≡ key x)
      → by_key k (update_where test f xs)
        ≡ Option.map (λ x. if test x then f x else x) (by_key k xs)
  unfolding by_key update_where
  by_key-update_where test f k [] h = refl
  by_key-update_where test f k (x ∷ xs) h = ground (arith, h x, by_key-update_where test f k xs h)

  -- An update that puts one row in the place of those with its key.
  pub by_key_replace :
      (i k : ℕ) (y : A) (xs : List A)
      → key y ≡ i
      → by_key k (update_where (λ x. key x == i) (λ x. y) xs)
        ≡ (if k == i then Option.map (λ x. y) (by_key k xs) else by_key k xs)
  unfolding by_key update_where
  by_key_replace i k y [] e = ground arith
  by_key_replace i k y (x ∷ xs) e = ground (arith, by_key_replace i k y xs e)

  -- An insertion is seen by the look-ups that found nothing.
  pub by_key-append :
      (k : ℕ) (xs : List A) (y : A)
      → by_key k (xs ++ y ∷ [])
        ≡ (elim (by_key k xs) [ none ↦ (if key y == k then some y else none) | some x ↦ some x ])
  unfolding by_key
  by_key-append k [] y = refl
  by_key-append k (x ∷ xs) y = ground (arith, by_key-append k xs y)

  pub key-by_key : (k : ℕ) (xs : List A) (x : A) → by_key k xs ≡ some x → key x ≡ k
  unfolding by_key
  key-by_key k [] x h = cc
  key-by_key k (y ∷ ys) x h = ground (arith, key-by_key k ys x)

  -- Keys grow along the table and lie in [lo, hi).
  abbrev pub Ascending : ℕ → List A → ℕ → Type 0
  Ascending lo [] hi = lo ≤ hi
  Ascending lo (x ∷ xs) hi = (lo ≤ key x) × Ascending (suc (key x)) xs hi

  pub Ascending-le : (lo : ℕ) (xs : List A) (hi : ℕ) → Ascending lo xs hi → lo ≤ hi
  Ascending-le lo [] hi h = h
  Ascending-le lo (x ∷ xs) hi h = omega (arith, Ascending-le (suc (key x)) xs hi h.1)

  -- The next id of the sequence goes to the end.
  pub Ascending-append :
      (lo : ℕ) (xs : List A) (hi : ℕ) (y : A)
      → key y ≡ hi
      → Ascending lo xs hi
      → Ascending lo (xs ++ y ∷ []) (suc hi)
  Ascending-append lo [] hi y e h = omega arith
  Ascending-append lo (x ∷ xs) hi y e h = (h.0, Ascending-append (suc (key x)) xs hi y e h.1)

  pub Ascending-update_where :
      (lo : ℕ) (xs : List A) (hi : ℕ) (test : A → Bool) (f : A → A)
      → ((x : A) → key (f x) ≡ key x)
      → Ascending lo xs hi
      → Ascending lo (update_where test f xs) hi
  unfolding update_where
  Ascending-update_where lo [] hi test f e h = h
  Ascending-update_where lo (x ∷ xs) hi test f e h =
      let rest = Ascending-update_where (suc (key x)) xs hi test f e h.1 in
      ground (arith, e x, rest)

  Ascending-weaken :
      (lo lo' : ℕ) (xs : List A) (hi : ℕ) → lo' ≤ lo → Ascending lo xs hi → Ascending lo' xs hi
  Ascending-weaken lo lo' [] hi le h = omega arith
  Ascending-weaken lo lo' (x ∷ xs) hi le h = (omega arith, h.1)

  pub Ascending-select :
      (lo : ℕ) (xs : List A) (hi : ℕ) (test : A → Bool)
      → Ascending lo xs hi
      → Ascending lo (select test xs) hi
  unfolding select
  Ascending-select lo [] hi test h = h
  Ascending-select lo (x ∷ xs) hi test h =
      let rest = Ascending-select (suc (key x)) xs hi test h.1 in
      ground (arith, rest, Ascending-weaken (suc (key x)) lo (select test xs) hi)

  -- No row has the next id.
  pub by_key_absent :
      (lo : ℕ) (xs : List A) (hi k : ℕ) → Ascending lo xs hi → hi ≤ k → by_key k xs ≡ none
  unfolding by_key
  by_key_absent lo [] hi k h le = refl
  by_key_absent lo (x ∷ xs) hi k h le =
      ground (arith, Ascending-le (suc (key x)) xs hi, by_key_absent (suc (key x)) xs hi k)

  -- A row under the next id is found after its insertion.
  pub by_key_new :
      (xs : List A) (y : A) (hi : ℕ)
      → Ascending 0 xs hi
      → key y ≡ hi
      → by_key hi (xs ++ y ∷ []) ≡ some y
  by_key_new xs y hi v e = ground (arith, by_key-append hi xs y, by_key_absent 0 xs hi hi v)

  -- Nor one with an id below the least.
  pub by_key_below :
      (lo : ℕ) (xs : List A) (hi k : ℕ) → Ascending lo xs hi → k < lo → by_key k xs ≡ none
  unfolding by_key
  by_key_below lo [] hi k h lt = refl
  by_key_below lo (x ∷ xs) hi k h lt = ground (arith, by_key_below (suc (key x)) xs hi k)

  -- After a deletion a look-up finds the row that it found, if that was spared.
  pub by_key-select :
      (lo : ℕ) (xs : List A) (hi k : ℕ) (test : A → Bool)
      → Ascending lo xs hi
      → by_key k (select test xs)
        ≡ (elim (by_key k xs) [ none ↦ none | some x ↦ (if test x then some x else none) ])
  unfolding by_key select
  by_key-select lo [] hi k test h = refl
  by_key-select lo (x ∷ xs) hi k test h =
      ground (
        arith,
        by_key-select (suc (key x)) xs hi k test h.1,
        by_key_below (suc (key x)) xs hi k h.1,
      )

  -- A look-up by id with one more condition.
  pub first-by_key :
      (lo : ℕ) (xs : List A) (hi k : ℕ) (test : A → Bool)
      → Ascending lo xs hi
      → first (λ x. key x == k && test x) xs
        ≡ (elim (by_key k xs) [ none ↦ none | some x ↦ (if test x then some x else none) ])
  unfolding by_key first
  first-by_key lo [] hi k test h = refl
  first-by_key lo (x ∷ xs) hi k test h =
      ground
        (arith, first-by_key (suc (key x)) xs hi k test h.1, by_key_below (suc (key x)) xs hi k h.1)

  -- The row of `where(test).order_by(...).limit(1)` passes the test and is the row with its id.
  pub earliest-select :
      (order : A → ℕ) (lo : ℕ) (xs : List A) (hi : ℕ) (test : A → Bool) (y : A)
      → Ascending lo xs hi
      → earliest order (select test xs) ≡ some y
      → (lo ≤ key y) × (test y ≡ true) × (by_key (key y) xs ≡ some y)
  unfolding by_key select earliest
  earliest-select order lo [] hi test y h e = cc
  earliest-select order lo (x ∷ xs) hi test y h e =
      ground (arith, earliest-select order (suc (key x)) xs hi test y h.1, ==-refl (key x))

  -- A conditional update of one id matches a row exactly when the row with that id passes the test.
  pub rowcount-by_key :
      (lo : ℕ) (xs : List A) (hi k : ℕ) (test : A → Bool)
      → Ascending lo xs hi
      → rowcount (λ x. (key x == k) && test x) xs
        ≡ (elim (by_key k xs) [ none ↦ 0 | some x ↦ (if test x then 1 else 0) ])
  unfolding by_key rowcount
  rowcount-by_key lo [] hi k test h = refl
  rowcount-by_key lo (x ∷ xs) hi k test h = elim (Bool-cases (key x == k)) [
    | inl e ↦ rw e (
        ground (
          arith,
          rowcount-by_key (suc (key x)) xs hi k test h.1,
          by_key_below (suc (key x)) xs hi k h.1,
        ))
    | inr e ↦ rw e (rowcount-by_key (suc (key x)) xs hi k test h.1)
  ]

module _ {ℓ} {A : Type ℓ} where
  pub All-update_where {κ} :
      (P : A → Type κ) (test : A → Bool) (f : A → A) (xs : List A)
      → ((x : A) → P x → P (f x))
      → All P xs
      → All P (update_where test f xs)
  unfolding update_where
  All-update_where P test f [] keep h = tt
  All-update_where P test f (x ∷ xs) keep h =
      (All-head (test x) h.0, All-update_where P test f xs keep h.1)
    where
      All-head : (b : Bool) → P x → P (if b then f x else x)
      All-head true p = keep x p
      All-head false p = p

  pub All-select {κ} :
      (P : A → Type κ) (test : A → Bool) (xs : List A) → All P xs → All P (select test xs)
  unfolding select
  All-select P test [] h = tt
  All-select P test (x ∷ xs) h = elim (Bool-cases (test x)) [
    | inl e ↦ rw e (h.0, All-select P test xs h.1)
    | inr e ↦ rw e (All-select P test xs h.1)
  ]
