-- ===== src/Table/Defs.antt =====
-- A table is the list of its rows in the order of insertion, which is the order of their ids.
use distributed_asynchronous.Prelude.{
  ℕ, suc, Bool, Option, none, some, List, [], ◌∷◌, leb, if◌then◌else◌,
}

module _ {ℓ} {A : Type ℓ} where
  -- select(A).where(test)
  unfoldable pub select : (A → Bool) → List A → List A
  select test [] = []
  select test (x ∷ xs) = let rest = select test xs in if test x then x ∷ rest else rest

  -- select(A).where(test).limit(1), and session.get
  unfoldable pub first : (A → Bool) → List A → Option A
  first test [] = none
  first test (x ∷ xs) = if test x then some x else first test xs

  -- update(A).where(test).values(...)
  unfoldable pub update_where : (A → Bool) → (A → A) → List A → List A
  update_where test f [] = []
  update_where test f (x ∷ xs) = (if test x then f x else x) ∷ update_where test f xs

  -- The number of rows that a conditional update matches.
  unfoldable pub rowcount : (A → Bool) → List A → ℕ
  rowcount test [] = 0
  rowcount test (x ∷ xs) = if test x then suc (rowcount test xs) else rowcount test xs

  -- order_by(key, id).limit(1) over rows in the order of their ids: of equal keys the first row.
  unfoldable pub earliest : (A → ℕ) → List A → Option A
  earliest key [] = none
  earliest key (x ∷ xs) = elim (earliest key xs) [
    | none ↦ some x
    | some y ↦ if leb (key x) (key y) then some x else some y
  ]

  -- ORDER BY: a row goes before the rows that it is not behind.
  unfoldable pub insert : (A → A → Bool) → A → List A → List A
  insert before x [] = x ∷ []
  insert before x (y ∷ ys) =
      let rest = insert before x ys in if before y x then y ∷ rest else x ∷ y ∷ ys

  unfoldable pub order_by : (A → A → Bool) → List A → List A
  unfolding insert
  order_by before [] = []
  order_by before (x ∷ xs) = insert before x (order_by before xs)
