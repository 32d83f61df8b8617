-- ===== src/Migrations/Chain.antt =====
-- The migrations of migrations/versions, up and down.
use mathlib.Core.Option.{some-injective}
use distributed_asynchronous.Prelude.{
  ◌≡◌, refl, sym, ap, ◌∙◌, subst, String, false, Option, none, some, List, [], ◌∷◌, ◌++◌, str_eq,
  All,
}
use distributed_asynchronous.Migrations.{
  Column, Constraint, unique, Map, Table, Schema, Operation, create_table, drop_table, add_column,
  drop_column, create_index, drop_index, create_constraint, drop_constraint, put_at, put, at_table,
  store_table, change_table, with_columns, with_constraints, with_indexes, apply,
}
use distributed_asynchronous.Migrations.RoundTrip.{
  Undoes, made_table, made_column, made_index, made_constraint, remade_constraint, Reverts, nothing,
  step,
}
use distributed_asynchronous.Migrations.Versions.{upgrade_job_ownership, downgrade_job_ownership}

-- The operation that takes back one that makes something.
abbrev inverse : Operation → Operation
inverse (create_table t cs ks) = drop_table t
inverse (add_column t c) = drop_column t c.name
inverse (create_index i t cs) = drop_index i t
inverse (create_constraint k t c) = drop_constraint k t
inverse o = o

abbrev Makes : Operation → Type 0
Makes (create_table t cs ks) = Unit
Makes (add_column t c) = Unit
Makes (create_index i t cs) = Unit
Makes (create_constraint k t c) = Unit
Makes (drop_table t) = ⊥
Makes (drop_column t c) = ⊥
Makes (drop_index i t) = ⊥
Makes (drop_constraint k t) = ⊥

abbrev inverses : List Operation → List Operation
inverses [] = []
inverses (o ∷ os) = inverses os ++ inverse o ∷ []

Makes-Undoes : (s : Schema) (o : Operation) → Makes o → Undoes s o (inverse o)
Makes-Undoes s (create_table t cs ks) m = made_table t cs ks
Makes-Undoes s (add_column t c) m = made_column t c
Makes-Undoes s (create_index i t cs) m = made_index i t cs
Makes-Undoes s (create_constraint k t c) m = made_constraint k t c
Makes-Undoes s (drop_table t) m = absurd m
Makes-Undoes s (drop_column t c) m = absurd m
Makes-Undoes s (drop_index i t) m = absurd m
Makes-Undoes s (drop_constraint k t) m = absurd m

module _ (default_name : (table : String) → Constraint → String) where
  pub Makes-Reverts :
      (s : Schema) (os : List Operation) → All Makes os → Reverts default_name s os (inverses os)
  Makes-Reverts s [] m = nothing s
  Makes-Reverts s (o ∷ os) m =
      step s o (inverse o) os (inverses os) (inverses (o ∷ os)) (Makes-Undoes s o m.0)
        (λ s' a. Makes-Reverts s' os m.1) refl

  -- The constraint of the table of jobs that 0003 drops.
  abbrev pub HasNameKey : Schema → Type 0
  HasNameKey s =
      (old : Table)
      → s "jobs" ≡ some old
      → old.constraints "jobs_name_key" ≡ some (unique ("name" ∷ []))

  at_table-HasNameKey :
      (f : Table → Option Table) (s s' : Schema)
      → ((old new : Table)
          → f old ≡ some new
          → old.constraints "jobs_name_key" ≡ some (unique ("name" ∷ []))
          → new.constraints "jobs_name_key" ≡ some (unique ("name" ∷ [])))
      → at_table s "jobs" f ≡ some s'
      → HasNameKey s
      → HasNameKey s'
  at_table-HasNameKey f s s' keep h k = go (s "jobs") refl h
    where
      stored :
          (old : Table) (o : Option Table)
          → s "jobs" ≡ some old
          → f old ≡ o
          → store_table s "jobs" o ≡ some s'
          → HasNameKey s'
      stored old none there changed h' = cc
      stored old (some new) there changed h' = subst HasNameKey (some-injective _ _ h') λ table e.
          subst (λ (t : Table). t.constraints "jobs_name_key" ≡ some (unique ("name" ∷ [])))
            (some-injective _ _ e) (keep old new changed (k old there))

      go : (o : Option Table) → s "jobs" ≡ o → change_table o s "jobs" f ≡ some s' → HasNameKey s'
      go none absent h' = cc
      go (some old) there h' = stored old (f old) there refl h'

  columns_keep :
      (c : Column) (old new : Table)
      → with_columns old (put old.columns c.name c) ≡ some new
      → new.constraints ≡ old.constraints
  columns_keep c old new h = go (put old.columns c.name c) h
    where
      go :
          (o : Option (Map Column))
          → with_columns old o ≡ some new
          → new.constraints ≡ old.constraints
      go none h' = cc
      go (some m) h' = ap (λ (t : Table). t.constraints) (sym (some-injective _ _ h'))

  indexes_keep :
      (i : String) (cs : List String) (old new : Table)
      → with_indexes old (put old.indexes i cs) ≡ some new
      → new.constraints ≡ old.constraints
  indexes_keep i cs old new h = go (put old.indexes i cs) h
    where
      go :
          (o : Option (Map (List String)))
          → with_indexes old o ≡ some new
          → new.constraints ≡ old.constraints
      go none h' = cc
      go (some m) h' = ap (λ (t : Table). t.constraints) (sym (some-injective _ _ h'))

  constraints_keep :
      (k j : String) (c : Constraint) (old new : Table)
      → str_eq k j ≡ false
      → with_constraints old (put old.constraints k c) ≡ some new
      → new.constraints j ≡ old.constraints j
  constraints_keep k j c old new other h = go (old.constraints k) h
    where
      go :
          (o : Option Constraint)
          → with_constraints old (put_at o old.constraints k c) ≡ some new
          → new.constraints j ≡ old.constraints j
      go none h' =
          subst (λ (t : Table). t.constraints j ≡ old.constraints j) (some-injective _ _ h')
            (rw other refl)
      go (some there) h' = cc

  pub job_ownership-Reverts :
      (s : Schema)
      → HasNameKey s
      → Reverts default_name s upgrade_job_ownership downgrade_job_ownership
  unfolding apply
  job_ownership-Reverts s k =
      step s _ _ _ _ _ (made_column "jobs" _)
        (λ s1 a1.
          let k1 : HasNameKey s1 =
            at_table-HasNameKey _ s s1
              (λ old new h e. ap (λ m. m "jobs_name_key") (columns_keep _ old new h) ∙ e) a1 k in
          step s1 _ _ _ _ _ (made_index _ "jobs" _)
            (λ s2 a2.
              let k2 : HasNameKey s2 =
                at_table-HasNameKey _ s1 s2
                  (λ old new h e. ap (λ m. m "jobs_name_key") (indexes_keep _ _ old new h) ∙ e) a2
                  k1 in
              step s2 _ _ _ _ _ (made_constraint _ "jobs" _)
                (λ s3 a3.
                  let k3 : HasNameKey s3 =
                    at_table-HasNameKey _ s2 s3
                      (λ old new h e. constraints_keep _ "jobs_name_key" _ old new refl h ∙ e) a3
                      k2 in
                  step s3 _ _ _ _ _ (remade_constraint "jobs_name_key" "jobs" _ k3)
                    (λ s4 a4.
                      step s4 _ _ _ _ _ (made_constraint _ "jobs" _) (λ s5 a5. nothing s5) refl)
                    refl)
                refl)
            refl)
        refl
