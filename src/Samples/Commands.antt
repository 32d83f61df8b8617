-- ===== src/Samples/Commands.antt =====
-- Runs of the executors of backend/worker/executors/shell.py and http.py.
use distributed_asynchronous.Prelude.{◌≡◌, refl, none, some, [], ◌∷◌, ok, joined}
use distributed_asynchronous.Models.Json.{pos, num, text, end, field}
use distributed_asynchronous.Executors.{ok as ends_well}
use distributed_asynchronous.Executors.Http as Http
use distributed_asynchronous.Executors.Http.{is_success, after_request}
use distributed_asynchronous.Executors.Shell.{
  Spec, Outcome, exceeds, makes_dir, removes_dir, kills, writes_script, starts, Report, build_argv,
  rewrite, materialize_uploaded_script, run_process, execute,
}

-- A script that is uploaded and run by an interpreter, and that takes too long.
abbrev spec : Spec
spec = record {
  command = "python";
  args = "job.py" ∷ "--fast" ∷ [];
  source_filename = some "job.py";
  file_content = some "print(1)";
}

abbrev outcome : Outcome
outcome = exceeds (("stdout", "1") ∷ []) none

abbrev report : Report
report = execute (λ s. ok (s ∷ [])) joined (λ s. s) "/tmp/d" spec 30 outcome

report_effects :
    report.effects
    ≡ makes_dir
      ∷ writes_script "/tmp/d/job.py" "print(1)"
      ∷ starts ("python" ∷ "/tmp/d/job.py" ∷ "--fast" ∷ [])
      ∷ kills
      ∷ removes_dir
      ∷ []
unfolding execute build_argv materialize_uploaded_script rewrite run_process
report_effects = refl

http_test :
    (Http.execute "GET" "http://service" 30 [] (Http.response 204 "")).1
    ≡ ends_well
        (some (pos 0))
        (some (field "status_code" (num (pos 204)) (field "body" (text "") end)))
unfolding Http.execute after_request is_success
http_test = refl
