-- ===== src/Executors/Shell.antt =====
-- backend/worker/executors/shell.py: the argument list, the uploaded script, and the life of the process
-- and of the temporary directory. shlex.split, shlex.join and Path(...).name, the name of the
-- temporary directory and what the process does are given; the script can be written.
pub mod Cleanup
pub mod Uploads
use distributed_asynchronous.Prelude.{
  ℕ, zero, suc, String, Bool, true, false, not, ◌||◌, Option, none, some, List, [], ◌∷◌, ◌++◌,
  if◌then◌else◌, Result, ok as returns, err, joined, show, str_eq,
}
use distributed_asynchronous.Models.Json.{ℤ, pos, negsuc, num, Fields, end, field}
use distributed_asynchronous.Executors.{Ending, ok, failure, timeout}

-- The members of the task's specification, as text.
pub record Spec : Type 0 where
  pub command : String
  pub args : List String
  pub source_filename : Option String
  pub file_content : Option String

abbrev pub Lines : Type 0
Lines = List (String × String)

pub data Raised : Type 0 where
  canceled_error : Raised
  other_error : String → Raised

-- What the process does: it does not start; it exits with a code; it outlives the timeout; or the task is
-- canceled while it runs. `lines` is what its streams give, without the line ends, up to then. Two
-- more are not handled by the source: an exception or a cancellation after the script was written and
-- before the process has started, which leaves the directory; and, when the task is canceled, an
-- exception of log before the process is killed, which waits for the end of the streams only.
pub data Outcome : Type 0 where
  start_fails : String → Outcome
  interrupted : Raised → Outcome
  log_raises : (lines : Lines) → Raised → Outcome
  exits : (lines : Lines) (code : ℤ) → Outcome
  exceeds : (lines : Lines) (code : Option ℤ) → Outcome
  is_canceled : (lines : Lines) → Outcome

-- What `execute` does to its surroundings, and the exit of the process.
pub data Effect : Type 0 where
  makes_dir removes_dir kills process_exits : Effect
  writes_script : (path content : String) → Effect
  starts : (argv : List String) → Effect

pub record Report : Type 0 where
  pub effects : List Effect
  pub lines : Lines
  pub ending : Result Raised Ending

module _ (split : String → Result String (List String)) (join : List String → String)
    (name_of : String → String) (dir : String) where
  abbrev pub nonempty : List String → Result String (List String)
  nonempty [] = err "command is empty"
  nonempty (word ∷ words) = returns (word ∷ words)

  -- _build_argv; the errors are those of ValueError.
  unfoldable pub build_argv : Spec → Result String (List String)
  build_argv spec = elim (split spec.command) [
    | err exc ↦ err exc
    | returns words ↦ nonempty (words ++ spec.args)
  ]

  -- The loop over argv: what takes the place of each argument, and whether one was replaced.
  unfoldable pub rewrite : (filename path : String) → List String → List String × Bool
  rewrite filename path [] = ([], false)
  rewrite filename path (arg ∷ argv) =
      let (rewritten, replaced) = rewrite filename path argv in
      if str_eq (name_of arg) filename
      then (path ∷ rewritten, true)
      else (arg ∷ rewritten, replaced)

  abbrev pub with_script : (path : String) → List String × Bool → List String
  with_script path (rewritten, replaced) = if replaced then rewritten else rewritten ++ path ∷ []

  abbrev pub is_invalid_name : String → Bool
  is_invalid_name filename = str_eq filename "" || str_eq filename "." || str_eq filename ".."

  -- The script's path and content, and the new argument list.
  pub record Script : Type 0 where
    pub path : String
    pub content : String
    pub argv : List String

  abbrev pub script_at : (filename content : String) → List String → Result String (Option Script)
  script_at filename content argv =
      let path = joined (dir ∷ "/" ∷ filename ∷ []) in
      if is_invalid_name filename
      then err "source_filename is invalid"
      else returns (
          some (record {
            path = path;
            content = content;
            argv = with_script path (rewrite filename path argv);
          }))

  abbrev pub script_of :
      (file_content source_filename : Option String) → List String → Result String (Option Script)
  script_of none source_filename argv = returns none
  script_of (some content) none argv = returns none
  script_of (some content) (some source) argv = script_at (name_of source) content argv

  -- _materialize_uploaded_script; `none` where there is no script.
  unfoldable pub materialize_uploaded_script : Spec → List String → Result String (Option Script)
  materialize_uploaded_script spec argv = script_of spec.file_content spec.source_filename argv

  unfoldable pub exit_ending : ℤ → Ending
  exit_ending (pos zero) = ok (some (pos 0)) (some (field "exit_code" (num (pos 0)) end))
  exit_ending (pos (suc n)) =
      failure (joined ("command exited with code " ∷ show (suc n) ∷ [])) (some (pos (suc n)))
        (some (field "exit_code" (num (pos (suc n))) end))
  exit_ending (negsuc n) =
      failure (joined ("command exited with code -" ∷ show (suc n) ∷ [])) (some (negsuc n))
        (some (field "exit_code" (num (negsuc n)) end))

  -- The process, from its start on; `made` tells whether there is a temporary directory to remove.
  abbrev pub cleanup : Bool → List Effect
  cleanup made = if made then removes_dir ∷ [] else []

  unfoldable pub run_process :
      (timeout_sec : ℕ) (argv : List String) (made : Bool) → Outcome → Report
  run_process timeout_sec argv made (start_fails exc) = record {
    effects = cleanup made;
    lines = [];
    ending = returns (failure (joined ("failed to start process: " ∷ exc ∷ [])) none none);
  }
  run_process timeout_sec argv made (interrupted exc) = record {
    effects = [];
    lines = [];
    ending = err exc;
  }
  run_process timeout_sec argv made (log_raises lines exc) = record {
    effects = starts argv ∷ cleanup made;
    lines = lines;
    ending = err exc;
  }
  run_process timeout_sec argv made (exits lines code) = record {
    effects = starts argv ∷ process_exits ∷ cleanup made;
    lines = lines;
    ending = returns (exit_ending code);
  }
  run_process timeout_sec argv made (exceeds lines code) = record {
    effects = starts argv ∷ kills ∷ cleanup made;
    lines = lines;
    ending =
        returns (
          timeout (joined ("command exceeded timeout of " ∷ show timeout_sec ∷ "s" ∷ [])) code
            none);
  }
  run_process timeout_sec argv made (is_canceled lines) = record {
    effects = starts argv ∷ kills ∷ cleanup made;
    lines = lines ++ ("system", "cancellation requested; terminating process") ∷ [];
    ending = err canceled_error;
  }

  -- await log("system", f"$ {shlex.join(argv)}")
  abbrev pub announced : List Effect → List String → Report → Report
  announced effects argv report = record report {
    effects = effects ++ report.effects;
    lines = ("system", joined ("$ " ∷ join argv ∷ [])) ∷ report.lines;
  }

  abbrev pub run_script : (timeout_sec : ℕ) (argv : List String) → Option Script → Outcome → Report
  run_script timeout_sec argv none outcome =
      announced [] argv (run_process timeout_sec argv false outcome)
  run_script timeout_sec argv (some script) outcome =
      announced (makes_dir ∷ writes_script script.path script.content ∷ []) script.argv
        (run_process timeout_sec script.argv true outcome)

  abbrev pub unparsed : String → Report
  unparsed exc = record {
    effects = [];
    lines = [];
    ending = returns (failure (joined ("failed to parse command: " ∷ exc ∷ [])) none none);
  }

  abbrev pub run_materialized :
      (timeout_sec : ℕ) (argv : List String) → Result String (Option Script) → Outcome → Report
  run_materialized timeout_sec argv (err exc) outcome = unparsed exc
  run_materialized timeout_sec argv (returns script) outcome =
      run_script timeout_sec argv script outcome

  abbrev pub run_parsed : (timeout_sec : ℕ) → Spec → Result String (List String) → Outcome → Report
  run_parsed timeout_sec spec (err exc) outcome = unparsed exc
  run_parsed timeout_sec spec (returns argv) outcome =
      run_materialized timeout_sec argv (materialize_uploaded_script spec argv) outcome

  unfoldable pub execute : Spec → (timeout_sec : ℕ) → Outcome → Report
  execute spec timeout_sec outcome = run_parsed timeout_sec spec (build_argv spec) outcome
