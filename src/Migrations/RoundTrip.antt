-- ===== src/Migrations/RoundTrip.antt =====
-- The downgrades of migrations/versions take back the upgrades.
use mathlib.Core.Path.{fun_ext}
use mathlib.Core.Option.{some-injective}
use distributed_asynchronous.Prelude.{
  ◌≡◌, refl, sym, ap, ◌∙◌, subst, inl, inr, String, Option, none, some, List, [], ◌∷◌, ◌++◌, str_eq,
  str_eq_iff, Bool-cases,
}
use distributed_asynchronous.Migrations.{
  Column, Constraint, Map, set, Table, Schema, Operation, create_table, drop_table, add_column,
  drop_column, create_index, drop_index, create_constraint, drop_constraint, new_table, put_at, put,
  remove_at, remove, store_table, change_table, at_table, with_columns, with_constraints,
  with_indexes, apply, apply_all, ◌>>=◌,
}

set_back :
    {A : Type 0} → (m : Map A) (k : String) (v o : Option A) → m k ≡ o → set (set m k v) k o ≡ m
set_back m k v o e = fun_ext λ j. elim (Bool-cases (str_eq k j)) [
  | inl same ↦ rw same (sym e ∙ ap m ((str_eq_iff k j).0 same))
  | inr other ↦ rw (other) refl
]

set_self : {A : Type 0} (m : Map A) (k : String) (v : Option A) → set m k v k ≡ v
set_self m k v = rw ((str_eq_iff k k).1 refl) refl

module _ {A : Type 0} (m m' : Map A) (k : String) where
  remove-put : (v : A) → put m k v ≡ some m' → remove m' k ≡ some m
  remove-put v h = go (m k) refl h
    where
      go : (o : Option A) → m k ≡ o → put_at o m k v ≡ some m' → remove m' k ≡ some m
      go none absent h' =
          subst (λ n. remove n k ≡ some m) (some-injective _ _ h')
            (ap (λ o. remove_at o (set m k (some v)) k) (set_self m k (some v))
              ∙ ap some (set_back m k (some v) none absent))
      go (some old) there h' = cc

  put-remove : (v : A) → m k ≡ some v → remove m k ≡ some m' → put m' k v ≡ some m
  put-remove v there h =
      subst (λ n. put n k v ≡ some m)
        (some-injective _ _ (sym (ap (λ o. remove_at o m k) there) ∙ h))
        (ap (λ o. put_at o (set m k none) k v) (set_self m k none)
          ∙ ap some (set_back m k none (some v) there))

-- A change to one table, and the change that takes it back.
pub at_table_back :
    (f g : Table → Option Table) (t : String) (s s' : Schema)
    → ((table table' : Table) → s t ≡ some table → f table ≡ some table' → g table' ≡ some table)
    → at_table s t f ≡ some s'
    → at_table s' t g ≡ some s
at_table_back f g t s s' back h = go (s t) refl h
  where
    stored :
        (table : Table) (o : Option Table)
        → s t ≡ some table
        → f table ≡ o
        → store_table s t o ≡ some s'
        → at_table s' t g ≡ some s
    stored table none there changed h' = cc
    stored table (some table') there changed h' =
        subst (λ r. at_table r t g ≡ some s) (some-injective _ _ h')
          (ap (λ o. change_table o (set s t (some table')) t g) (set_self s t (some table'))
            ∙ ap (store_table (set s t (some table')) t) (back table table' there changed)
            ∙ ap some (set_back s t (some table') (some table) there))

    go : (o : Option Table) → s t ≡ o → change_table o s t f ≡ some s' → at_table s' t g ≡ some s
    go none absent h' = cc
    go (some table) there h' = stored table (f table) there refl h'

-- One operation takes back another: it names the same things; and a constraint that was dropped is
-- created as it was.
pub data Undoes (s : Schema) : Operation → Operation → Type 0 where
  made_table :
      (t : String) (cs : List Column) (ks : List (Option String × Constraint))
      → Undoes s (create_table t cs ks) (drop_table t)
  made_column : (t : String) (c : Column) → Undoes s (add_column t c) (drop_column t c.name)
  made_index : (i t : String) (cs : List String) → Undoes s (create_index i t cs) (drop_index i t)
  made_constraint :
      (k t : String) (c : Constraint) → Undoes s (create_constraint k t c) (drop_constraint k t)
  remade_constraint :
      (k t : String) (c : Constraint)
      → ((old : Table) → s t ≡ some old → old.constraints k ≡ some c)
      → Undoes s (drop_constraint k t) (create_constraint k t c)

columns_back :
    (table table' : Table) (c : Column)
    → with_columns table (put table.columns c.name c) ≡ some table'
    → with_columns table' (remove table'.columns c.name) ≡ some table
columns_back table table' c h = go (put table.columns c.name c) refl h
  where
    go :
        (o : Option (Map Column))
        → put table.columns c.name c ≡ o
        → with_columns table o ≡ some table'
        → with_columns table' (remove table'.columns c.name) ≡ some table
    go none e h' = cc
    go (some m) e h' =
        subst (λ (u : Table). with_columns u (remove u.columns c.name) ≡ some table)
          (some-injective _ _ h')
          (ap (with_columns (record table { columns = m })) (remove-put table.columns m c.name c e))

indexes_back :
    (table table' : Table) (i : String) (cs : List String)
    → with_indexes table (put table.indexes i cs) ≡ some table'
    → with_indexes table' (remove table'.indexes i) ≡ some table
indexes_back table table' i cs h = go (put table.indexes i cs) refl h
  where
    go :
        (o : Option (Map (List String)))
        → put table.indexes i cs ≡ o
        → with_indexes table o ≡ some table'
        → with_indexes table' (remove table'.indexes i) ≡ some table
    go none e h' = cc
    go (some m) e h' =
        subst (λ (u : Table). with_indexes u (remove u.indexes i) ≡ some table)
          (some-injective _ _ h')
          (ap (with_indexes (record table { indexes = m })) (remove-put table.indexes m i cs e))

constraints_back :
    (table table' : Table) (k : String) (change back : Map Constraint → Option (Map Constraint))
    → ((m : Map Constraint) → change table.constraints ≡ some m → back m ≡ some table.constraints)
    → with_constraints table (change table.constraints) ≡ some table'
    → with_constraints table' (back table'.constraints) ≡ some table
constraints_back table table' k change back undo h = go (change table.constraints) refl h
  where
    go :
        (o : Option (Map Constraint))
        → change table.constraints ≡ o
        → with_constraints table o ≡ some table'
        → with_constraints table' (back table'.constraints) ≡ some table
    go none e h' = cc
    go (some m) e h' =
        subst (λ (u : Table). with_constraints u (back u.constraints) ≡ some table)
          (some-injective _ _ h')
          (ap (with_constraints (record table { constraints = m })) (undo m e))

module _ (default_name : (table : String) → Constraint → String) where
  apply_back :
      (s s' : Schema) {o r : Operation}
      → Undoes s o r
      → apply default_name o s ≡ some s'
      → apply default_name r s' ≡ some s
  unfolding apply
  apply_back s s' (made_table t cs ks) h = remove-put s s' t (new_table default_name t cs ks) h
  apply_back s s' (made_column t c) h =
      at_table_back _ _ t s s' (λ old new there. columns_back old new c) h
  apply_back s s' (made_index i t cs) h =
      at_table_back _ _ t s s' (λ old new there. indexes_back old new i cs) h
  apply_back s s' (made_constraint k t c) h =
      at_table_back _ _ t s s'
        (λ old new there.
          constraints_back old new k (λ m. put m k c) (λ m. remove m k)
            (λ m e. remove-put old.constraints m k c e))
        h
  apply_back s s' (remade_constraint k t c was) h =
      at_table_back _ _ t s s'
        (λ old new there.
          constraints_back old new k (λ m. remove m k) (λ m. put m k c)
            (λ m e. put-remove old.constraints m k c (was old there) e))
        h

  -- The operations `rs` take back `os`, each the one at its place from the end.
  pub data Reverts : Schema → List Operation → List Operation → Type 0 where
    nothing : (s : Schema) → Reverts s [] []
    step :
        (s : Schema) (o r : Operation) (os rs back : List Operation)
        → Undoes s o r
        → ((s' : Schema) → apply default_name o s ≡ some s' → Reverts s' os rs)
        → back ≡ rs ++ r ∷ []
        → Reverts s (o ∷ os) back

  apply_all-append :
      (os rs : List Operation) (s : Schema)
      → apply_all default_name (os ++ rs) s
        ≡ (apply_all default_name os s >>= apply_all default_name rs)
  apply_all-append [] rs s = refl
  apply_all-append (o ∷ os) rs s = go (apply default_name o s) (λ s'. apply_all-append os rs s')
    where
      go :
          (m : Option Schema)
          → ((s' : Schema)
              → apply_all default_name (os ++ rs) s'
                ≡ (apply_all default_name os s' >>= apply_all default_name rs))
          → (m >>= λ s'. apply_all default_name (os ++ rs) s')
            ≡ ((m >>= λ s'. apply_all default_name os s') >>= apply_all default_name rs)
      go none ih = refl
      go (some s') ih = ih s'

  -- What takes back the operations of a migration, brings back the schema.
  pub Reverts-apply_all :
      {s : Schema} {os back : List Operation}
      → Reverts s os back
      → (s' : Schema) → apply_all default_name os s ≡ some s'
      → apply_all default_name back s' ≡ some s
  Reverts-apply_all (nothing s) s' h = sym h
  Reverts-apply_all (step s o r os rs back u rest e) s' h =
      go (apply default_name o s) refl (λ t a. Reverts-apply_all (rest t a) s') h
    where
      go :
          (m : Option Schema)
          → apply default_name o s ≡ m
          → ((t : Schema)
              → apply default_name o s ≡ some t
              → apply_all default_name os t ≡ some s'
              → apply_all default_name rs s' ≡ some t)
          → (m >>= λ t. apply_all default_name os t) ≡ some s'
          → apply_all default_name back s' ≡ some s
      go none a ih h' = cc
      go (some t) a ih h' =
          ap (λ b. apply_all default_name b s') e
          ∙ apply_all-append rs (r ∷ []) s'
          ∙ ap (λ m. m >>= apply_all default_name (r ∷ [])) (ih t a h')
          ∙ ap (λ m. m >>= λ s''. some s'') (apply_back s t u a)
