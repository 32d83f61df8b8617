-- ===== src/Executors/Shell/Cleanup.antt =====
-- What shell.py leaves behind.
use distributed_asynchronous.Prelude.{
  ℕ, ◌≡◌, refl, String, Bool, true, false, Option, none, some, List, [], ◌∷◌, Result, ok as returns,
  err,
}
use distributed_asynchronous.Executors.Shell.{
  Spec, Outcome, start_fails, interrupted, log_raises, exits, exceeds, is_canceled, Effect,
  makes_dir, removes_dir, kills, process_exits, writes_script, starts, Script, build_argv,
  materialize_uploaded_script, run_process, run_materialized, run_parsed, execute,
}

-- Whether the temporary directory is there, and whether the process runs.
abbrev pub State : Type 0
State = Bool × Bool

-- The state after an effect, or `none` where the effect is out of place: a directory is made once, a
-- script is written into it, and it is removed when no process runs.
abbrev pub act : Effect → State → Option State
act makes_dir (false, false) = some (true, false)
act makes_dir (true, running) = none
act makes_dir (false, true) = none
act removes_dir (true, false) = some (false, false)
act removes_dir (false, running) = none
act removes_dir (true, true) = none
act (writes_script path content) (true, false) = some (true, false)
act (writes_script path content) (false, running) = none
act (writes_script path content) (true, true) = none
act (starts argv) (made, false) = some (made, true)
act (starts argv) (made, true) = none
act kills (made, true) = some (made, false)
act kills (made, false) = none
act process_exits (made, true) = some (made, false)
act process_exits (made, false) = none

abbrev pub act_all : List Effect → State → Option State
act_all [] s = some s
act_all (e ∷ es) s = elim (act e s) [ none ↦ none | some s' ↦ act_all es s' ]

-- Whether the source handles the outcome.
abbrev pub is_handled : Outcome → Bool
is_handled (interrupted exc) = false
is_handled (log_raises lines exc) = false
is_handled outcome = true

module _ (split : String → Result String (List String)) (join : List String → String)
    (name_of : String → String) (dir : String) where
  run_process_clean :
      (timeout_sec : ℕ) (argv : List String) (made : Bool) (outcome : Outcome)
      → is_handled outcome ≡ true
      → act_all
          (run_process split join name_of dir timeout_sec argv made outcome).effects
          (made, false)
        ≡ some (false, false)
  unfolding run_process
  run_process_clean timeout_sec argv made (interrupted exc) h = cc
  run_process_clean timeout_sec argv made (log_raises lines exc) h = cc
  run_process_clean timeout_sec argv true (start_fails exc) h = refl
  run_process_clean timeout_sec argv false (start_fails exc) h = refl
  run_process_clean timeout_sec argv true (exits lines code) h = refl
  run_process_clean timeout_sec argv false (exits lines code) h = refl
  run_process_clean timeout_sec argv true (exceeds lines code) h = refl
  run_process_clean timeout_sec argv false (exceeds lines code) h = refl
  run_process_clean timeout_sec argv true (is_canceled lines) h = refl
  run_process_clean timeout_sec argv false (is_canceled lines) h = refl

  run_materialized_clean :
      (timeout_sec : ℕ) (argv : List String)
      (script : Result String (Option (Script split join name_of dir))) (outcome : Outcome)
      → is_handled outcome ≡ true
      → act_all
          (run_materialized split join name_of dir timeout_sec argv script outcome).effects
          (false, false)
        ≡ some (false, false)
  run_materialized_clean timeout_sec argv (err exc) outcome h = refl
  run_materialized_clean timeout_sec argv (returns none) outcome h =
      run_process_clean timeout_sec argv false outcome h
  run_materialized_clean timeout_sec argv (returns (some script)) outcome h =
      run_process_clean timeout_sec script.argv true outcome h

  run_parsed_clean :
      (timeout_sec : ℕ) (spec : Spec) (argv : Result String (List String)) (outcome : Outcome)
      → is_handled outcome ≡ true
      → act_all
          (run_parsed split join name_of dir timeout_sec spec argv outcome).effects
          (false, false)
        ≡ some (false, false)
  run_parsed_clean timeout_sec spec (err exc) outcome h = refl
  run_parsed_clean timeout_sec spec (returns argv) outcome h =
      run_materialized_clean timeout_sec argv
        (materialize_uploaded_script split join name_of dir spec argv) outcome h

  -- Where no exception or cancellation comes between the script and the start of the process, and log
  -- raises nothing when the task is canceled: the temporary directory that a script is written into
  -- is made before the process starts and is removed, the process has exited or been killed before
  -- that, and in the end neither is left.
  pub execute_clean :
      (spec : Spec) (timeout_sec : ℕ) (outcome : Outcome)
      → is_handled outcome ≡ true
      → act_all (execute split join name_of dir spec timeout_sec outcome).effects (false, false)
        ≡ some (false, false)
  unfolding execute
  execute_clean spec timeout_sec outcome h =
      run_parsed_clean timeout_sec spec (build_argv split join name_of dir spec) outcome h
