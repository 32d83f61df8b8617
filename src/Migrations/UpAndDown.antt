-- ===== src/Migrations/UpAndDown.antt =====
-- All the migrations of migrations/versions, up and down again.
use mathlib.Core.Option.{some-injective}
use distributed_asynchronous.Prelude.{
  ◌≡◌, refl, sym, ap, ◌∙◌, subst, arith, String, false, Option, none, some, List, [], ◌∷◌, str_eq,
  str_eq_iff, All,
}
use distributed_asynchronous.Migrations.{
  Constraint, primary_key, unique, Map, set, Table, Schema, Operation, create_table, drop_table,
  add_column, drop_column, create_index, drop_index, create_constraint, drop_constraint, new_table,
  put_at, put, remove_at, remove, at_table, store_table, change_table, apply, apply_all, ◌>>=◌,
}
use distributed_asynchronous.Migrations.RoundTrip.{Reverts-apply_all}
use distributed_asynchronous.Migrations.Chain.{Makes-Reverts, HasNameKey, job_ownership-Reverts}
use distributed_asynchronous.Migrations.Versions.{
  upgrade_initial_schema, downgrade_initial_schema, upgrade_users, downgrade_users,
  upgrade_job_ownership, downgrade_job_ownership, upgrade_category_and_cancel,
  downgrade_category_and_cancel,
}

abbrev table_of : Operation → String
table_of (create_table t cs ks) = t
table_of (drop_table t) = t
table_of (add_column t c) = t
table_of (drop_column t c) = t
table_of (create_index i t cs) = t
table_of (drop_index i t) = t
table_of (create_constraint k t c) = t
table_of (drop_constraint k t) = t

abbrev after_first : List Operation → List Operation
after_first [] = []
after_first (o ∷ os) = os

set_other :
    {A : Type 0} (m : Map A) (k j : String) (v : Option A) → str_eq k j ≡ false → set m k v j ≡ m j
set_other m k j v h = rw h refl

put_other :
    {A : Type 0} (m m' : Map A) (k j : String) (v : A)
    → str_eq k j ≡ false
    → put m k v ≡ some m'
    → m' j ≡ m j
put_other {A} m m' k j v other h = go (m k) h
  where
    go : (o : Option A) → put_at o m k v ≡ some m' → m' j ≡ m j
    go none h' =
        ap (λ (n : Map A). n j) (sym (some-injective _ _ h')) ∙ set_other m k j (some v) other
    go (some old) h' = cc

put_own : {A : Type 0} (m m' : Map A) (k : String) (v : A) → put m k v ≡ some m' → m' k ≡ some v
put_own {A} m m' k v h = go (m k) h
  where
    go : (o : Option A) → put_at o m k v ≡ some m' → m' k ≡ some v
    go none h' =
        ap (λ (n : Map A). n k) (sym (some-injective _ _ h')) ∙ rw ((str_eq_iff k k).1 refl) refl
    go (some old) h' = cc

remove_other :
    {A : Type 0} (m m' : Map A) (k j : String)
    → str_eq k j ≡ false
    → remove m k ≡ some m'
    → m' j ≡ m j
remove_other {A} m m' k j other h = go (m k) h
  where
    go : (o : Option A) → remove_at o m k ≡ some m' → m' j ≡ m j
    go none h' = cc
    go (some old) h' =
        ap (λ (n : Map A). n j) (sym (some-injective _ _ h')) ∙ set_other m k j none other

at_table_other :
    (f : Table → Option Table) (s s' : Schema) (t j : String)
    → str_eq t j ≡ false
    → at_table s t f ≡ some s'
    → s' j ≡ s j
at_table_other f s s' t j other h = go (s t) h
  where
    stored : (o : Option Table) → store_table s t o ≡ some s' → s' j ≡ s j
    stored none h' = cc
    stored (some new) h' =
        ap (λ (m : Schema). m j) (sym (some-injective _ _ h')) ∙ set_other s t j (some new) other

    go : (o : Option Table) → change_table o s t f ≡ some s' → s' j ≡ s j
    go none h' = cc
    go (some old) h' = stored (f old) h'

module _ (default_name : (table : String) → Constraint → String) where
  apply_other :
      (o : Operation) (s s' : Schema) (j : String)
      → str_eq (table_of o) j ≡ false
      → apply default_name o s ≡ some s'
      → s' j ≡ s j
  unfolding apply
  apply_other (create_table t cs ks) s s' j other h =
      put_other s s' t j (new_table default_name t cs ks) other h
  apply_other (drop_table t) s s' j other h = remove_other s s' t j other h
  apply_other (add_column t c) s s' j other h = at_table_other _ s s' t j other h
  apply_other (drop_column t c) s s' j other h = at_table_other _ s s' t j other h
  apply_other (create_index i t cs) s s' j other h = at_table_other _ s s' t j other h
  apply_other (drop_index i t) s s' j other h = at_table_other _ s s' t j other h
  apply_other (create_constraint k t c) s s' j other h = at_table_other _ s s' t j other h
  apply_other (drop_constraint k t) s s' j other h = at_table_other _ s s' t j other h

  apply_all_other :
      (os : List Operation) (s s' : Schema) (j : String)
      → All (λ o. str_eq (table_of o) j ≡ false) os
      → apply_all default_name os s ≡ some s'
      → s' j ≡ s j
  apply_all_other [] s s' j other h = ap (λ (m : Schema). m j) (sym (some-injective _ _ h))
  apply_all_other (o ∷ os) s s' j other h =
      go (apply default_name o s) refl (λ t. apply_all_other os t s' j other.1) h
    where
      go :
          (m : Option Schema)
          → apply default_name o s ≡ m
          → ((t : Schema) → apply_all default_name os t ≡ some s' → s' j ≡ t j)
          → (m >>= λ t. apply_all default_name os t) ≡ some s'
          → s' j ≡ s j
      go none a ih h' = cc
      go (some t) a ih h' = ih t h' ∙ apply_other o s t j other.0 a

  -- What a migration leaves of the table that its first operation makes.
  first_table :
      (t : String) (v : Table) (os : List Operation) (s s' : Schema)
      → (put s t v >>= λ r. apply_all default_name os r) ≡ some s'
      → All (λ o. str_eq (table_of o) t ≡ false) os
      → s' t ≡ some v
  first_table t v os s s' h other = go (put s t v) refl h
    where
      go :
          (m : Option Schema)
          → put s t v ≡ m
          → (m >>= λ r. apply_all default_name os r) ≡ some s'
          → s' t ≡ some v
      go none e h' = cc
      go (some r) e h' = apply_all_other os r s' t other h' ∙ put_own s r t v e

  -- After the first migration the table of jobs has the unique constraint on the name.
  initial_schema-HasNameKey :
      (s s' : Schema)
      → default_name "jobs" (primary_key ("id" ∷ [])) ≡ "jobs_pkey"
      → default_name "jobs" (unique ("name" ∷ [])) ≡ "jobs_name_key"
      → apply_all default_name upgrade_initial_schema s ≡ some s'
      → HasNameKey default_name s'
  unfolding apply
  initial_schema-HasNameKey s s' pkey name_key h = λ old there.
      subst (λ (t : Table). t.constraints "jobs_name_key" ≡ some (unique ("name" ∷ [])))
        (some-injective _ _ (
          sym (first_table "jobs" _ (after_first upgrade_initial_schema) s s' h (ground arith))
          ∙ there))
        (rw (pkey, name_key) refl)

  users-HasNameKey :
      (s s' : Schema)
      → apply_all default_name upgrade_users s ≡ some s'
      → HasNameKey default_name s
      → HasNameKey default_name s'
  users-HasNameKey s s' h k =
      λ old there. k old (sym (apply_all_other upgrade_users s s' "jobs" (ground arith) h) ∙ there)

  -- Each downgrade takes back its upgrade, from any schema on which the upgrades apply one after
  -- another: it applies, and the schema is again what it was before the upgrade. The condition is
  -- that PostgreSQL gives the two constraints of the table of jobs that the first migration leaves
  -- without a name the names jobs_pkey and jobs_name_key.
  pub downgrade-upgrade :
      (s s1 s2 s3 s4 : Schema)
      → default_name "jobs" (primary_key ("id" ∷ [])) ≡ "jobs_pkey"
      → default_name "jobs" (unique ("name" ∷ [])) ≡ "jobs_name_key"
      → apply_all default_name upgrade_initial_schema s ≡ some s1
      → apply_all default_name upgrade_users s1 ≡ some s2
      → apply_all default_name upgrade_job_ownership s2 ≡ some s3
      → apply_all default_name upgrade_category_and_cancel s3 ≡ some s4
      → (apply_all default_name downgrade_category_and_cancel s4 ≡ some s3)
        × (apply_all default_name downgrade_job_ownership s3 ≡ some s2)
        × (apply_all default_name downgrade_users s2 ≡ some s1)
        × (apply_all default_name downgrade_initial_schema s1 ≡ some s)
  downgrade-upgrade s s1 s2 s3 s4 pkey name_key h1 h2 h3 h4 =
      let k : HasNameKey default_name s2 =
        users-HasNameKey s1 s2 h2 (initial_schema-HasNameKey s s1 pkey name_key h1) in
      (
        Reverts-apply_all default_name
            (Makes-Reverts default_name s3 upgrade_category_and_cancel (ground arith)) s4 h4,
        Reverts-apply_all default_name (job_ownership-Reverts default_name s2 k) s3 h3,
        Reverts-apply_all default_name (Makes-Reverts default_name s1 upgrade_users (ground arith))
            s2 h2,
        Reverts-apply_all default_name
            (Makes-Reverts default_name s upgrade_initial_schema (ground arith)) s1 h1,
      )
