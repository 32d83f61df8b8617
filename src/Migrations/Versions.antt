-- ===== src/Migrations/Versions.antt =====
-- The migrations of migrations/versions, 0001 to 0004, as operations on the schema. What they do to rows
-- is in Migrations/Rows.
use distributed_asynchronous.Prelude.{String, Bool, true, false, Option, none, some, List, [], ◌∷◌}
use distributed_asynchronous.Migrations.{
  ColumnType, big_integer, integer, text, jsonb, boolean, date_time, string, Column, primary_key,
  unique, foreign_key, Operation, create_table, drop_table, add_column, drop_column, create_index,
  drop_index, create_constraint, drop_constraint,
}

-- sa.Column(name, type, nullable=..., server_default=...)
abbrev column : String → ColumnType → Bool → Option String → Column
column name type nullable server_default = record {
  name = name;
  type = type;
  nullable = nullable;
  server_default = server_default;
}

-- migrations/versions/0001_initial_schema
abbrev pub upgrade_initial_schema : List Operation
upgrade_initial_schema =
    create_table "jobs"
      ((column "id" big_integer false none)
        ∷ (column "name" (string 255) false none)
        ∷ (column "description" text true none)
        ∷ (column "task_type" (string 32) false none)
        ∷ (column "task_spec" jsonb false none)
        ∷ (column "schedule_type" (string 16) false none)
        ∷ (column "schedule_expr" (string 255) true none)
        ∷ (column "timezone" (string 64) false none)
        ∷ (column "enabled" boolean false none)
        ∷ (column "max_retries" integer false none)
        ∷ (column "retry_backoff_sec" integer false none)
        ∷ (column "timeout_sec" integer false none)
        ∷ (column "last_scheduled_for" date_time true none)
        ∷ (column "created_at" date_time false none)
        ∷ (column "updated_at" date_time false none)
        ∷ [])
      ((none, primary_key ("id" ∷ [])) ∷ (none, unique ("name" ∷ [])) ∷ [])
    ∷ create_table "job_dependencies"
        ((column "id" big_integer false none)
          ∷ (column "job_id" big_integer false none)
          ∷ (column "depends_on_job_id" big_integer false none)
          ∷ [])
        ((none, foreign_key ("job_id" ∷ []) "jobs" ("id" ∷ []) "CASCADE")
          ∷ (none, foreign_key ("depends_on_job_id" ∷ []) "jobs" ("id" ∷ []) "CASCADE")
          ∷ (none, primary_key ("id" ∷ []))
          ∷ ((some "uq_job_dependency"), unique ("job_id" ∷ "depends_on_job_id" ∷ []))
          ∷ [])
    ∷ create_index "ix_job_dependencies_job_id" "job_dependencies" ("job_id" ∷ [])
    ∷ create_index "ix_job_dependencies_depends_on_job_id" "job_dependencies"
        ("depends_on_job_id" ∷ [])
    ∷ create_table "job_runs"
        ((column "id" big_integer false none)
          ∷ (column "job_id" big_integer false none)
          ∷ (column "trigger_type" (string 16) false none)
          ∷ (column "status" (string 16) false none)
          ∷ (column "attempt" integer false none)
          ∷ (column "scheduled_for" date_time true none)
          ∷ (column "started_at" date_time true none)
          ∷ (column "finished_at" date_time true none)
          ∷ (column "exit_code" integer true none)
          ∷ (column "result" jsonb true none)
          ∷ (column "error" text true none)
          ∷ (column "worker_id" (string 255) true none)
          ∷ (column "created_at" date_time false none)
          ∷ [])
        ((none, foreign_key ("job_id" ∷ []) "jobs" ("id" ∷ []) "CASCADE")
          ∷ (none, primary_key ("id" ∷ []))
          ∷ ((some "uq_job_run_tick"), unique ("job_id" ∷ "scheduled_for" ∷ []))
          ∷ [])
    ∷ create_index "ix_job_runs_job_id" "job_runs" ("job_id" ∷ [])
    ∷ create_index "ix_job_runs_status" "job_runs" ("status" ∷ [])
    ∷ create_index "ix_job_runs_job_id_created" "job_runs" ("job_id" ∷ "created_at" ∷ [])
    ∷ create_table "job_run_logs"
        ((column "id" big_integer false none)
          ∷ (column "run_id" big_integer false none)
          ∷ (column "ts" date_time false none)
          ∷ (column "stream" (string 16) false none)
          ∷ (column "line" text false none)
          ∷ [])
        ((none, foreign_key ("run_id" ∷ []) "job_runs" ("id" ∷ []) "CASCADE")
          ∷ (none, primary_key ("id" ∷ []))
          ∷ [])
    ∷ create_index "ix_job_run_logs_run_id" "job_run_logs" ("run_id" ∷ [])
    ∷ create_index "ix_job_run_logs_run_id_ts" "job_run_logs" ("run_id" ∷ "ts" ∷ [])
    ∷ []

-- migrations/versions/0001_initial_schema
abbrev pub downgrade_initial_schema : List Operation
downgrade_initial_schema =
    drop_index "ix_job_run_logs_run_id_ts" "job_run_logs"
    ∷ drop_index "ix_job_run_logs_run_id" "job_run_logs"
    ∷ drop_table "job_run_logs"
    ∷ drop_index "ix_job_runs_job_id_created" "job_runs"
    ∷ drop_index "ix_job_runs_status" "job_runs"
    ∷ drop_index "ix_job_runs_job_id" "job_runs"
    ∷ drop_table "job_runs"
    ∷ drop_index "ix_job_dependencies_depends_on_job_id" "job_dependencies"
    ∷ drop_index "ix_job_dependencies_job_id" "job_dependencies"
    ∷ drop_table "job_dependencies"
    ∷ drop_table "jobs"
    ∷ []

-- migrations/versions/0002_users
abbrev pub upgrade_users : List Operation
upgrade_users =
    create_table "users"
      ((column "id" big_integer false none)
        ∷ (column "username" (string 64) false none)
        ∷ (column "email" (string 255) true none)
        ∷ (column "password_hash" (string 255) false none)
        ∷ (column "is_active" boolean false (some "true"))
        ∷ (column "created_at" date_time false none)
        ∷ (column "updated_at" date_time false none)
        ∷ [])
      ((none, primary_key ("id" ∷ []))
        ∷ (none, unique ("username" ∷ []))
        ∷ (none, unique ("email" ∷ []))
        ∷ [])
    ∷ create_index "ix_users_username" "users" ("username" ∷ [])
    ∷ create_index "ix_users_email" "users" ("email" ∷ [])
    ∷ []

-- migrations/versions/0002_users
abbrev pub downgrade_users : List Operation
downgrade_users =
    drop_index "ix_users_email" "users"
    ∷ drop_index "ix_users_username" "users"
    ∷ drop_table "users"
    ∷ []

-- migrations/versions/0003_job_ownership
abbrev pub upgrade_job_ownership : List Operation
upgrade_job_ownership =
    add_column "jobs" (column "owner_user_id" big_integer true none)
    ∷ create_index "ix_jobs_owner_user_id" "jobs" ("owner_user_id" ∷ [])
    ∷ create_constraint "fk_jobs_owner_user_id_users" "jobs"
        (foreign_key ("owner_user_id" ∷ []) "users" ("id" ∷ []) "SET NULL")
    ∷ drop_constraint "jobs_name_key" "jobs"
    ∷ create_constraint "uq_jobs_owner_name" "jobs" (unique ("owner_user_id" ∷ "name" ∷ []))
    ∷ []

-- migrations/versions/0003_job_ownership
abbrev pub downgrade_job_ownership : List Operation
downgrade_job_ownership =
    drop_constraint "uq_jobs_owner_name" "jobs"
    ∷ create_constraint "jobs_name_key" "jobs" (unique ("name" ∷ []))
    ∷ drop_constraint "fk_jobs_owner_user_id_users" "jobs"
    ∷ drop_index "ix_jobs_owner_user_id" "jobs"
    ∷ drop_column "jobs" "owner_user_id"
    ∷ []

-- migrations/versions/0004_category_and_cancel
abbrev pub upgrade_category_and_cancel : List Operation
upgrade_category_and_cancel =
    add_column "jobs" (column "category" (string 64) true none)
    ∷ create_index "ix_jobs_category" "jobs" ("category" ∷ [])
    ∷ []

-- migrations/versions/0004_category_and_cancel
abbrev pub downgrade_category_and_cancel : List Operation
downgrade_category_and_cancel =
    drop_index "ix_jobs_category" "jobs" ∷ drop_column "jobs" "category" ∷ []
