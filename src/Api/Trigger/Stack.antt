-- ===== src/Api/Trigger/Stack.antt =====
-- The stack of the recursion: a walk along dependencies that repeats no job, and so is short.
use distributed_asynchronous.Prelude.{
  ℕ, suc, ◌≤◌, ◌<◌, ◌≡◌, refl, true, false, List, [], ◌∷◌, ◌++◌, arith, ◌==◌, if◌then◌else◌, length,
  contains, contains-append, All, map,
}
use distributed_asynchronous.Table.{select}
use distributed_asynchronous.Models.{JobDependency, Database}
use distributed_asynchronous.Store.Defs.{dependency_ids}

abbrev pub Distinct : List ℕ → Type 0
Distinct [] = Unit
Distinct (x ∷ xs) = (contains xs x ≡ false) × Distinct xs

pub Distinct-append :
    (xs : List ℕ) (y : ℕ) → Distinct xs → contains xs y ≡ false → Distinct (xs ++ y ∷ [])
Distinct-append [] y d h = (refl, tt)
Distinct-append (x ∷ xs) y d h =
    (ground (arith, contains-append xs (y ∷ []) x), Distinct-append xs y d.1 (ground arith))

abbrev pub Within : List ℕ → List ℕ → Type 0
Within xs ys = All (λ x. contains ys x ≡ true) xs

pub Within-append :
    (xs : List ℕ) (y : ℕ) (ys : List ℕ)
    → Within xs ys
    → contains ys y ≡ true
    → Within (xs ++ y ∷ []) ys
Within-append [] y ys w h = (h, tt)
Within-append (x ∷ xs) y ys w h = (w.0, Within-append xs y ys w.1 h)

-- The list without the first occurrence of an element.
remove : ℕ → List ℕ → List ℕ
remove x [] = []
remove x (y ∷ ys) = if y == x then ys else y ∷ remove x ys

length-remove :
    (x : ℕ) (ys : List ℕ) → contains ys x ≡ true → length ys ≡ suc (length (remove x ys))
unfolding remove
length-remove x [] h = cc
length-remove x (y ∷ ys) h = ground (arith, length-remove x ys)

contains-remove :
    (x z : ℕ) (ys : List ℕ)
    → (x == z) ≡ false
    → contains ys z ≡ true
    → contains (remove x ys) z ≡ true
unfolding remove
contains-remove x z [] ne h = h
contains-remove x z (y ∷ ys) ne h = ground (arith, contains-remove x z ys ne)

Within-remove :
    (x : ℕ) (xs ys : List ℕ) → contains xs x ≡ false → Within xs ys → Within xs (remove x ys)
Within-remove x [] ys h w = tt
Within-remove x (z ∷ xs) ys h w =
    (ground (arith, contains-remove x z ys), Within-remove x xs ys (ground arith) w.1)

-- A list without repetition is no longer than one that has all its elements.
pub length-Within : (xs ys : List ℕ) → Distinct xs → Within xs ys → length xs ≤ length ys
length-Within [] ys d w = omega arith
length-Within (x ∷ xs) ys d w = omega (
  arith,
  length-remove x ys w.0,
  length-Within xs (remove x ys) d.1 (Within-remove x xs ys d.0 w.1),
)

module _ (db : Database) where
  -- Each job of the walk depends on the next one.
  abbrev pub IsWalk : List ℕ → Type 0
  IsWalk [] = Unit
  IsWalk (a ∷ []) = Unit
  IsWalk (a ∷ b ∷ rest) = (contains (dependency_ids a db) b ≡ true) × IsWalk (b ∷ rest)

  pub IsWalk-append :
      (xs : List ℕ) (a b : ℕ)
      → IsWalk (xs ++ a ∷ [])
      → contains (dependency_ids a db) b ≡ true
      → IsWalk ((xs ++ a ∷ []) ++ b ∷ [])
  IsWalk-append [] a b w h = (h, tt)
  IsWalk-append (x ∷ []) a b w h = (w.0, (h, tt))
  IsWalk-append (x ∷ y ∷ xs) a b w h = (w.0, IsWalk-append (y ∷ xs) a b w.1 h)

  -- A rank puts each dependency below its job, so there is no cycle of dependencies.
  abbrev pub IsRanked : (ℕ → ℕ) → Type 0
  IsRanked rank = (a b : ℕ) → contains (dependency_ids a db) b ≡ true → rank b < rank a

  pub IsWalk-ranked :
      (rank : ℕ → ℕ) (xs : List ℕ) (a : ℕ)
      → IsRanked rank
      → IsWalk (xs ++ a ∷ [])
      → All (λ x. rank a < rank x) xs
  IsWalk-ranked rank [] a r w = tt
  IsWalk-ranked rank (x ∷ []) a r w = (r x a w.0, tt)
  IsWalk-ranked rank (x ∷ y ∷ xs) a r w =
      let rest = IsWalk-ranked rank (y ∷ xs) a r w.1 in (omega (arith, r x y w.0, rest.0), rest)

pub not_below_itself :
    (rank : ℕ → ℕ) (xs : List ℕ) (a : ℕ) → All (λ x. rank a < rank x) xs → contains xs a ≡ false
not_below_itself rank [] a h = refl
not_below_itself rank (x ∷ xs) a h = ground (arith, not_below_itself rank xs a h.1)

contains-rows :
    (job_id d : ℕ) (ds : List ℕ) (rows : List JobDependency)
    → map (λ (x : JobDependency). x.depends_on_job_id) (select (λ x. x.job_id == job_id) rows)
      ≡ d ∷ ds
    → contains (map (λ (x : JobDependency). x.job_id) rows) job_id ≡ true
unfolding select
contains-rows job_id d ds [] h = cc
contains-rows job_id d ds (x ∷ rows) h = ground (arith, contains-rows job_id d ds rows)

-- A job that has a dependency stands in the table of dependencies.
pub contains-job_ids :
    (job_id d : ℕ) (ds : List ℕ) (db : Database)
    → dependency_ids job_id db ≡ d ∷ ds
    → contains (map (λ (x : JobDependency). x.job_id) db.dependencies) job_id ≡ true
unfolding dependency_ids
contains-job_ids job_id d ds db e = contains-rows job_id d ds db.dependencies e
