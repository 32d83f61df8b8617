-- ===== src/Prelude/Lists.antt =====
-- Lists measured by native numbers, under the library's names.
use Prim.Native.Nat.{ℕ, zero, suc, ◌+◌, ◌≤◌}
use mathlib.Core.Path.{◌≡◌, refl}
use mathlib.Core.Bool.{Bool, true, false, ◌||◌}
use mathlib.Core.List.{List, [], ◌∷◌, ◌++◌}
use native.Mathlib.Omega.{arith}
use distributed_asynchronous.Prelude.Tests.{◌==◌, ==_iff, if◌then◌else◌}

module _ {ℓ} {A : Type ℓ} where
  abbrev pub length : List A → ℕ
  length [] = 0
  length (x ∷ xs) = suc (length xs)

  pub length-append : (xs ys : List A) → length (xs ++ ys) ≡ length xs + length ys
  length-append [] ys = omega arith
  length-append (x ∷ xs) ys = omega (arith, length-append xs ys)

  abbrev pub take : ℕ → List A → List A
  take zero xs = []
  take (suc n) [] = []
  take (suc n) (x ∷ xs) = x ∷ take n xs

  abbrev pub drop : ℕ → List A → List A
  drop zero xs = xs
  drop (suc n) [] = []
  drop (suc n) (x ∷ xs) = drop n xs

  -- A predicate of every element, by recursion, so that tactics read it.
  abbrev pub All {κ} : (A → Type κ) → List A → Type κ
  All P [] = Unit
  All P (x ∷ xs) = P x × All P xs

  pub All-append {κ} : (P : A → Type κ) (xs ys : List A) → All P xs → All P ys → All P (xs ++ ys)
  All-append P [] ys p q = q
  All-append P (x ∷ xs) ys p q = (p.0, All-append P xs ys p.1 q)

  pub All-map {κ μ} :
      (P : A → Type κ) (Q : A → Type μ) (xs : List A) → ((x : A) → P x → Q x) → All P xs → All Q xs
  All-map P Q [] f h = tt
  All-map P Q (x ∷ xs) f h = (f x h.0, All-map P Q xs f h.1)

-- `n in xs`
abbrev pub contains : List ℕ → ℕ → Bool
contains [] n = false
contains (x ∷ xs) n = x == n || contains xs n

pub contains-append :
    (xs ys : List ℕ) (n : ℕ) → contains (xs ++ ys) n ≡ (contains xs n || contains ys n)
contains-append [] ys n = refl
contains-append (x ∷ xs) ys n = ground (arith, contains-append xs ys n)

-- `list(dict.fromkeys(xs))`: the first occurrence of each element, in order. The first argument
-- holds the elements already met.
abbrev dedup_from : List ℕ → List ℕ → List ℕ
dedup_from seen [] = []
dedup_from seen (x ∷ xs) =
    let fresh = dedup_from (x ∷ seen) xs in
    let old = dedup_from seen xs in if contains seen x then old else x ∷ fresh

abbrev pub dedup : List ℕ → List ℕ
dedup = dedup_from []

contains-dedup_from :
    (seen xs : List ℕ) (n : ℕ)
    → (contains seen n || contains (dedup_from seen xs) n) ≡ (contains seen n || contains xs n)
contains-dedup_from seen [] n = refl
contains-dedup_from seen (x ∷ xs) n =
    ground (arith, contains-dedup_from seen xs n, contains-dedup_from (x ∷ seen) xs n)

-- Removing duplicates keeps the elements.
pub contains-dedup : (xs : List ℕ) (n : ℕ) → contains (dedup xs) n ≡ contains xs n
contains-dedup xs n = contains-dedup_from [] xs n

-- How often a number is in a list.
abbrev pub occurrences : ℕ → List ℕ → ℕ
occurrences n [] = 0
occurrences n (x ∷ xs) = (if x == n then 1 else 0) + occurrences n xs

pub occurrences-append :
    (n : ℕ) (xs ys : List ℕ) → occurrences n (xs ++ ys) ≡ occurrences n xs + occurrences n ys
occurrences-append n [] ys = omega arith
occurrences-append n (x ∷ xs) ys = omega (arith, occurrences-append n xs ys)

pub contains-occurrences :
    (n : ℕ) (xs : List ℕ) → contains xs n ≡ (if occurrences n xs == 0 then false else true)
contains-occurrences n [] = refl
contains-occurrences n (x ∷ xs) = ground (arith, contains-occurrences n xs)

occurrences-dedup_from :
    (n : ℕ) (seen xs : List ℕ)
    → occurrences n (dedup_from seen xs) ≤ (if contains seen n then 0 else 1)
occurrences-dedup_from n seen [] = ground arith
occurrences-dedup_from n seen (x ∷ xs) =
    ground
      (arith, occurrences-dedup_from n seen xs, occurrences-dedup_from n (x ∷ seen) xs, ==_iff x n)

pub occurrences-dedup : (n : ℕ) (xs : List ℕ) → occurrences n (dedup xs) ≤ 1
occurrences-dedup n xs = occurrences-dedup_from n [] xs
