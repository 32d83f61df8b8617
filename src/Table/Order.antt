-- ===== src/Table/Order.antt =====
-- What a sorted and paged listing of a table holds.
use distributed_asynchronous.Prelude.{
  ℕ, zero, suc, ◌-◌, min, ◌≡◌, refl, Bool, true, false, List, [], ◌∷◌, arith, inl, inr, Bool-cases,
  All, length, take, drop,
}
use distributed_asynchronous.Table.Defs.{insert, order_by}

module _ {ℓ} {A : Type ℓ} where
  pub length-take : (n : ℕ) (xs : List A) → length (take n xs) ≡ min n (length xs)
  length-take zero xs = omega arith
  length-take (suc n) [] = omega arith
  length-take (suc n) (x ∷ xs) = omega (arith, length-take n xs)

  pub length-drop : (n : ℕ) (xs : List A) → length (drop n xs) ≡ length xs - n
  length-drop zero xs = omega arith
  length-drop (suc n) [] = omega arith
  length-drop (suc n) (x ∷ xs) = omega (arith, length-drop n xs)

  length-insert :
      (before : A → A → Bool) (x : A) (xs : List A) → length (insert before x xs) ≡ suc (length xs)
  unfolding insert
  length-insert before x [] = refl
  length-insert before x (y ∷ ys) = ground (arith, length-insert before x ys)

  pub length-order_by :
      (before : A → A → Bool) (xs : List A) → length (order_by before xs) ≡ length xs
  unfolding order_by
  length-order_by before [] = refl
  length-order_by before (x ∷ xs) =
      omega (arith, length-insert before x (order_by before xs), length-order_by before xs)

  pub All-take {κ} : (P : A → Type κ) (n : ℕ) (xs : List A) → All P xs → All P (take n xs)
  All-take P zero xs h = tt
  All-take P (suc n) [] h = tt
  All-take P (suc n) (x ∷ xs) h = (h.0, All-take P n xs h.1)

  pub All-drop {κ} : (P : A → Type κ) (n : ℕ) (xs : List A) → All P xs → All P (drop n xs)
  All-drop P zero xs h = h
  All-drop P (suc n) [] h = tt
  All-drop P (suc n) (x ∷ xs) h = All-drop P n xs h.1

  All-insert {κ} :
      (P : A → Type κ) (before : A → A → Bool) (x : A) (xs : List A)
      → P x
      → All P xs
      → All P (insert before x xs)
  unfolding insert
  All-insert P before x [] p h = (p, tt)
  All-insert P before x (y ∷ ys) p h = elim (Bool-cases (before y x)) [
    | inl e ↦ rw e (h.0, All-insert P before x ys p h.1)
    | inr e ↦ rw e (p, h)
  ]

  pub All-order_by {κ} :
      (P : A → Type κ) (before : A → A → Bool) (xs : List A) → All P xs → All P (order_by before xs)
  unfolding order_by
  All-order_by P before [] h = tt
  All-order_by P before (x ∷ xs) h =
      All-insert P before x (order_by before xs) h.0 (All-order_by P before xs h.1)

  -- No row comes after one that it is before.
  abbrev pub IsSorted : (A → A → Bool) → List A → Type 0
  IsSorted before [] = Unit
  IsSorted before (x ∷ xs) = All (λ y. before y x ≡ false) xs × IsSorted before xs

  pub IsSorted-take :
      (before : A → A → Bool) (n : ℕ) (xs : List A)
      → IsSorted before xs
      → IsSorted before (take n xs)
  IsSorted-take before zero xs h = tt
  IsSorted-take before (suc n) [] h = tt
  IsSorted-take before (suc n) (x ∷ xs) h = (All-take _ n xs h.0, IsSorted-take before n xs h.1)

  pub IsSorted-drop :
      (before : A → A → Bool) (n : ℕ) (xs : List A)
      → IsSorted before xs
      → IsSorted before (drop n xs)
  IsSorted-drop before zero xs h = h
  IsSorted-drop before (suc n) [] h = tt
  IsSorted-drop before (suc n) (x ∷ xs) h = IsSorted-drop before n xs h.1

  module _ (before : A → A → Bool) (asym : (x y : A) → before y x ≡ true → before x y ≡ false)
      (trans : (x y z : A) → before y x ≡ false → before z y ≡ false → before z x ≡ false) where
    All-behind :
        (x y : A) (ys : List A)
        → before y x ≡ false
        → All (λ z. before z y ≡ false) ys
        → All (λ z. before z x ≡ false) ys
    All-behind x y [] e h = tt
    All-behind x y (z ∷ zs) e h = (trans x y z e h.0, All-behind x y zs e h.1)

    insert-IsSorted :
        (x : A) (xs : List A) → IsSorted before xs → IsSorted before (insert before x xs)
    unfolding insert
    insert-IsSorted x [] h = (tt, tt)
    insert-IsSorted x (y ∷ ys) h = elim (Bool-cases (before y x)) [
      | inl e ↦ rw e (
        All-insert (λ z. before z y ≡ false) before x ys (asym x y e) h.0,
        insert-IsSorted x ys h.1,
      )
      | inr e ↦ rw e ((e, All-behind x y ys e h.0), h)
    ]

    pub order_by-IsSorted : (xs : List A) → IsSorted before (order_by before xs)
    unfolding order_by
    order_by-IsSorted [] = tt
    order_by-IsSorted (x ∷ xs) = insert-IsSorted x (order_by before xs) (order_by-IsSorted xs)
