-- ===== src/Samples/Schemas.antt =====
-- The migrations from an empty database.
use distributed_asynchronous.Prelude.{
  ◌≡◌, refl, none, some, String, Option, List, [], ◌∷◌, joined, leb, length, codes, if◌then◌else◌,
  ℕ, Bool, ◌==◌,
}
use distributed_asynchronous.Samples.{job}
use distributed_asynchronous.Migrations.{
  Constraint, primary_key, unique, foreign_key, Schema, Operation, apply, apply_all,
}
use distributed_asynchronous.Migrations.Versions.{
  upgrade_initial_schema, downgrade_initial_schema, upgrade_users, downgrade_users,
  upgrade_job_ownership, downgrade_job_ownership, upgrade_category_and_cancel,
  downgrade_category_and_cancel,
}
use distributed_asynchronous.Migrations.UpAndDown.{downgrade-upgrade}
use distributed_asynchronous.Migrations.Rows.{legacy, backfill_job, backfill_job-legacy}

abbrev underscored : List String → String
underscored [] = ""
underscored (c ∷ cs) = joined ("_" ∷ c ∷ underscored cs ∷ [])

-- PostgreSQL's names for constraints.
abbrev default_name : String → Constraint → String
default_name table (primary_key cs) = joined (table ∷ "_pkey" ∷ [])
default_name table (unique cs) = joined (table ∷ underscored cs ∷ "_key" ∷ [])
default_name table (foreign_key cs t rs d) = joined (table ∷ underscored cs ∷ "_fkey" ∷ [])

abbrev no_tables : Schema
no_tables t = none

abbrev or_same : Schema → Option Schema → Schema
or_same s none = s
or_same s (some s') = s'

abbrev after : List Operation → Schema → Schema
after os s = or_same s (apply_all default_name os s)

abbrev first_version : Schema
first_version = after upgrade_initial_schema no_tables

abbrev second_version : Schema
second_version = after upgrade_users first_version

abbrev third_version : Schema
third_version = after upgrade_job_ownership second_version

abbrev fourth_version : Schema
fourth_version = after upgrade_category_and_cancel third_version

first_applies : apply_all default_name upgrade_initial_schema no_tables ≡ some first_version
unfolding apply
first_applies = refl

second_applies : apply_all default_name upgrade_users first_version ≡ some second_version
unfolding apply
second_applies = refl

third_applies : apply_all default_name upgrade_job_ownership second_version ≡ some third_version
unfolding apply
third_applies = refl

fourth_applies :
    apply_all default_name upgrade_category_and_cancel third_version ≡ some fourth_version
unfolding apply
fourth_applies = refl

downgrade-upgrade_example :
    (apply_all default_name downgrade_category_and_cancel fourth_version ≡ some third_version)
    × (apply_all default_name downgrade_job_ownership third_version ≡ some second_version)
    × (apply_all default_name downgrade_users second_version ≡ some first_version)
    × (apply_all default_name downgrade_initial_schema first_version ≡ some no_tables)
downgrade-upgrade_example =
    downgrade-upgrade default_name no_tables first_version second_version third_version
      fourth_version refl refl first_applies second_applies third_applies fourth_applies

abbrev is_blank : ℕ → Bool
is_blank c = c == b' '

backfill_job_example :
    backfill_job is_blank (record (job 1) { description = some (legacy "reports" "nightly") }) ≡ (
      if leb (length (codes "reports")) 64
      then some (record (job 1) { category = some "reports"; description = some "nightly" })
      else none)
backfill_job_example = backfill_job-legacy is_blank (job 1) "reports" "nightly" refl refl refl refl
