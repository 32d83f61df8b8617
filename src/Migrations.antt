-- ===== src/Migrations.antt =====
-- The schema that migrations/versions works on, and the operations of alembic that the migrations call.
-- A schema maps the name of a table to its columns, constraints and indexes; `none` is an error of
-- the database. What hangs on a table in other tables, and on a column in its table, is not
-- looked at when it is dropped. The rows are not looked at either: a unique constraint that the
-- database refuses because two rows agree (the downgrade of 0003, once two users own jobs of one
-- name) is outside this model.
pub mod Versions
pub mod RoundTrip
pub mod Chain
pub mod UpAndDown
pub mod Rows
use distributed_asynchronous.Prelude.{
  ℕ, String, Bool, true, false, Option, none, some, List, [], ◌∷◌, if◌then◌else◌, str_eq, is_none,
}

-- sa.BigInteger, sa.Integer, sa.String, sa.Text, postgresql.JSONB, sa.Boolean, sa.DateTime(timezone=True)
pub data ColumnType : Type 0 where
  big_integer integer text jsonb boolean date_time : ColumnType
  string : (length : ℕ) → ColumnType

-- sa.Column
pub record Column : Type 0 where
  pub name : String
  pub type : ColumnType
  pub nullable : Bool
  pub server_default : Option String

pub data Constraint : Type 0 where
  primary_key unique : (columns : List String) → Constraint
  foreign_key :
      (columns : List String)
      → (table : String) → (referred : List String) → (ondelete : String) → Constraint

abbrev pub Map : Type 0 → Type 0
Map A = String → Option A

abbrev pub set : {A : Type 0} → Map A → String → Option A → Map A
set m k v j = if str_eq k j then v else m j

pub record Table : Type 0 where
  pub columns : Map Column
  pub constraints : Map Constraint
  pub indexes : Map (List String)

abbrev pub Schema : Type 0
Schema = Map Table

-- A call of alembic's `op`. create_constraint is op.create_foreign_key and op.create_unique_constraint.
pub data Operation : Type 0 where
  create_table :
      String
      → (columns : List Column) → (constraints : List (Option String × Constraint)) → Operation
  drop_table : String → Operation
  add_column : (table : String) → Column → Operation
  drop_column : (table column : String) → Operation
  create_index : (name table : String) → (columns : List String) → Operation
  drop_index : (name table : String) → Operation
  create_constraint : (name table : String) → Constraint → Operation
  drop_constraint : (name table : String) → Operation

abbrev pub columns_of : List Column → Map Column
columns_of [] j = none
columns_of (c ∷ cs) j = if str_eq c.name j then some c else columns_of cs j

-- An entry is made where there is none, and removed where there is one.
abbrev pub put_at : {A : Type 0} → Option A → Map A → String → A → Option (Map A)
put_at none m k v = some (set m k (some v))
put_at (some old) m k v = none

abbrev pub put : {A : Type 0} → Map A → String → A → Option (Map A)
put m k v = put_at (m k) m k v

abbrev pub remove_at : {A : Type 0} → Option A → Map A → String → Option (Map A)
remove_at none m k = none
remove_at (some old) m k = some (set m k none)

abbrev pub remove : {A : Type 0} → Map A → String → Option (Map A)
remove m k = remove_at (m k) m k

abbrev pub store_table : Schema → String → Option Table → Option Schema
store_table s t none = none
store_table s t (some table) = some (set s t (some table))

abbrev pub change_table : Option Table → Schema → String → (Table → Option Table) → Option Schema
change_table none s t f = none
change_table (some table) s t f = store_table s t (f table)

abbrev pub at_table : Schema → String → (Table → Option Table) → Option Schema
at_table s t f = change_table (s t) s t f

infixl 5 ◌>>=◌
abbrev pub ◌>>=◌ : Option Schema → (Schema → Option Schema) → Option Schema
none >>= f = none
some s >>= f = f s

abbrev pub with_columns : Table → Option (Map Column) → Option Table
with_columns table none = none
with_columns table (some m) = some (record table { columns = m })

abbrev pub with_constraints : Table → Option (Map Constraint) → Option Table
with_constraints table none = none
with_constraints table (some m) = some (record table { constraints = m })

abbrev pub with_indexes : Table → Option (Map (List String)) → Option Table
with_indexes table none = none
with_indexes table (some m) = some (record table { indexes = m })

-- PostgreSQL names a constraint that is given no name.
module _ (default_name : (table : String) → Constraint → String) where
  abbrev pub name_or : (table : String) → Option String → Constraint → String
  name_or table none c = default_name table c
  name_or table (some name) c = name

  abbrev pub constraints_of : (table : String) → List (Option String × Constraint) → Map Constraint
  constraints_of table [] j = none
  constraints_of table ((name, c) ∷ cs) j =
      if str_eq (name_or table name c) j then some c else constraints_of table cs j

  abbrev pub new_table : (table : String) → List Column → List (Option String × Constraint) → Table
  new_table table cs ks = record {
    columns = columns_of cs;
    constraints = constraints_of table ks;
    indexes = λ j. none;
  }

  unfoldable pub apply : Operation → Schema → Option Schema
  apply (create_table t cs ks) s = put s t (new_table t cs ks)
  apply (drop_table t) s = remove s t
  apply (add_column t c) s = at_table s t (λ table. with_columns table (put table.columns c.name c))
  apply (drop_column t c) s = at_table s t (λ table. with_columns table (remove table.columns c))
  apply (create_index i t cs) s =
      at_table s t (λ table. with_indexes table (put table.indexes i cs))
  apply (drop_index i t) s = at_table s t (λ table. with_indexes table (remove table.indexes i))
  apply (create_constraint k t c) s =
      at_table s t (λ table. with_constraints table (put table.constraints k c))
  apply (drop_constraint k t) s =
      at_table s t (λ table. with_constraints table (remove table.constraints k))

  -- The operations of a migration, one after another, in one transaction.
  abbrev pub apply_all : List Operation → Schema → Option Schema
  apply_all [] s = some s
  apply_all (o ∷ os) s = apply o s >>= λ s'. apply_all os s'
