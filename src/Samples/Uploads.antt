-- ===== src/Samples/Uploads.antt =====
-- Uploaded files: drafts of jobs and the scripts of their tasks.
use distributed_asynchronous.Prelude.{
  ℕ, ◌≡◌, refl, true, none, some, String, Option, List, [], ◌∷◌, Result, ok, joined,
}
use distributed_asynchronous.FilePath.{name_of}
use distributed_asynchronous.Executors.Shell.{Spec, materialize_uploaded_script}
use distributed_asynchronous.Executors.Shell.Uploads.{
  RunsDraft, program_of, StaysInside, materialize_inside, draft_from_text-RunsDraft, program_of,
  script_run,
}
use distributed_asynchronous.Api.Jobs.Drafts.{
  draft_from_text, text_or, create_job_draft_from_file, job_name_from_filename,
}
use distributed_asynchronous.Api.Jobs.Drafts.Accepted.{Drafts, create_job_draft_from_file-Drafts}

-- An empty file, the one that decodes here.
abbrev decode : List ℕ → Option String
decode [] = some ""
decode (b ∷ bs) = none

create_job_draft_from_file_example :
    Drafts decode
      (λ e. true)
      (some "jobs/nightly.py")
      []
      (create_job_draft_from_file decode (λ e. true) (some "jobs/nightly.py") [])
create_job_draft_from_file_example =
    create_job_draft_from_file-Drafts decode (λ e. true) (some "jobs/nightly.py") []

abbrev split : String → Result String (List String)
split s = ok (s ∷ [])

RunsDraft_example :
    RunsDraft split joined "/tmp/d"
      (program_of (some "sh"))
      (name_of (text_or "uploaded-task" (some "sh")))
      "true"
      (draft_from_text (some "sh") "true").base.task_spec
RunsDraft_example = draft_from_text-RunsDraft split joined "/tmp/d" (some "sh") "true" refl

-- The command of a script that is called sh is replaced by the script itself.
script_named_sh :
    (script_run split joined "/tmp/d" "sh" "sh" "true").argv ≡ "/tmp/d/sh" ∷ "/tmp/d/sh" ∷ []
script_named_sh = refl

job_name_test : job_name_from_filename (some "jobs/ nightly .py") ≡ "nightly"
unfolding job_name_from_filename
job_name_test = refl

abbrev upload : Spec
upload = record {
  command = "sh";
  args = [];
  source_filename = some "../../etc/passwd";
  file_content = some "true";
}

materialize_inside_example :
    StaysInside split joined "/tmp/d"
      (materialize_uploaded_script split joined name_of "/tmp/d" upload ("sh" ∷ []))
materialize_inside_example = materialize_inside split joined "/tmp/d" upload ("sh" ∷ [])
