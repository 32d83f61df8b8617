-- ===== src/Api/Jobs/Drafts.antt =====
-- backend/api/routers/jobs.py: drafts of jobs from uploaded files.
pub mod Accepted
use distributed_asynchronous.Prelude.{
  ℕ, ◌+◌, ◌*◌, String, Bool, true, false, Option, none, some, List, [], ltb, codes, lower_code, map,
  if◌then◌else◌, take, length, joined, str_eq, Result, ok, err, ◌∷◌,
}
use distributed_asynchronous.FilePath.{name_of, stem_of, suffix_of, strip, prefix}
use distributed_asynchronous.Auth.Text.{equal}
use distributed_asynchronous.Constants.TaskType
use distributed_asynchronous.Constants.ScheduleType
use distributed_asynchronous.Models.Json.{Fields, field, end, text, arr, cons, nil}
use distributed_asynchronous.Api.Http.{HttpError}
use distributed_asynchronous.Api.Jobs.{JobCreate, is_valid}

-- _MAX_DRAFT_FILE_BYTES
abbrev pub max_draft_file_bytes : ℕ
max_draft_file_bytes = 128 * 1024

-- `text or other`
abbrev pub text_or : String → Option String → String
text_or other none = other
text_or other (some s) = if str_eq s "" then other else s

-- _job_name_from_filename
unfoldable pub job_name_from_filename : Option String → String
unfolding stem_of name_of strip
job_name_from_filename filename =
    text_or "uploaded-task" (some (prefix 255 (strip (stem_of (text_or "uploaded-task" filename)))))

-- schemas.py: JobDraftOut. The columns of JobBase are in `base`.
pub record JobDraftOut : Type 0 where
  pub base : JobCreate
  pub source_filename : Option String
  pub file_content : String

-- suffix.lower() == ".py": no other letter than an ASCII one lowers to a letter of this text.
abbrev is_py : String → Bool
is_py suffix = equal (map lower_code (codes suffix)) (codes ".py")

unfoldable pub command_for : Option String → String
unfolding suffix_of name_of
command_for filename = if is_py (suffix_of (text_or "" filename)) then "python" else "sh"

abbrev describe_source : Option String → String
describe_source none = "Draft imported from text file"
describe_source (some filename) =
    if str_eq filename ""
    then "Draft imported from text file"
    else joined ("Draft imported from " ∷ filename ∷ [])

abbrev pub draft_spec : (command source_filename content : String) → Fields
draft_spec command source_filename content = field "command" (text command) (
    field "args" (arr (cons (text source_filename) nil))
      (field "source_filename" (text source_filename) (field "file_content" (text content) end)))

-- _draft_from_text, before JobDraftOut validates its fields; those that are left out take their
-- defaults.
unfoldable pub draft_from_text : Option String → (content : String) → JobDraftOut
unfolding job_name_from_filename command_for name_of
draft_from_text filename content = record {
  base = record {
    name = job_name_from_filename filename;
    description = some (describe_source filename);
    category = none;
    task_type = TaskType.shell;
    task_spec =
        draft_spec (command_for filename) (name_of (text_or "uploaded-task" filename)) content;
    schedule_type = ScheduleType.manual;
    schedule_expr = none;
    timezone = "UTC";
    enabled = true;
    max_retries = 0;
    retry_backoff_sec = 30;
    timeout_sec = 300;
    depends_on = [];
  };
  source_filename = filename;
  file_content = content;
}

-- `decode` is data.decode("utf-8"), or `none` where it raises UnicodeDecodeError.
module _ (decode : List ℕ → Option String) (cron_is_valid : String → Bool) where
  -- _decode_text_file
  unfoldable pub decode_text_file : List ℕ → Result HttpError String
  decode_text_file bytes = elim (decode bytes) [
    | none ↦ err (record { status_code = 400; detail = "uploaded file must be UTF-8 text" })
    | some content ↦ ok content
  ]

  -- A draft that JobDraftOut does not accept is an exception, which becomes the status 500.
  abbrev pub validated : JobDraftOut → Result HttpError JobDraftOut
  validated draft =
      if is_valid cron_is_valid draft.base
      then ok draft
      else err (record { status_code = 500; detail = "internal server error" })

  abbrev pub draft_from_decoded :
      Option String → Result HttpError String → Result HttpError JobDraftOut
  draft_from_decoded filename (err e) = err e
  draft_from_decoded filename (ok content) = validated (draft_from_text filename content)

  -- create_job_draft_from_file: at most one byte more than is allowed is read.
  unfoldable pub create_job_draft_from_file :
      (filename : Option String) → (upload : List ℕ) → Result HttpError JobDraftOut
  unfolding decode_text_file draft_from_text
  create_job_draft_from_file filename upload =
      let bytes = take (max_draft_file_bytes + 1) upload in
      if ltb max_draft_file_bytes (length bytes)
      then err (record { status_code = 413; detail = "uploaded file must be <= 131072 bytes" })
      else draft_from_decoded filename (decode_text_file bytes)
