-- ===== src/Api/Jobs/Drafts/Accepted.antt =====
-- What create_job_draft_from_file of backend/api/routers/jobs.py answers.
use distributed_asynchronous.Prelude.{
  ℕ, zero, suc, ◌+◌, ◌≤◌, ◌<◌, ◌≡◌, ◌⊎◌, refl, arith, inl, inr, String, Bool, true, false, Option,
  none, some, List, [], ◌∷◌, ltb, codes, if◌then◌else◌, take, length, str_eq, Result, ok, err,
  Bool-cases,
}
use native.Mathlib.Decide.{dec_lt}
use distributed_asynchronous.Table.{length-take}
use distributed_asynchronous.FilePath.{stem_of, strip, prefix, length-prefix}
use distributed_asynchronous.Models.Json.{has, get, truthy}
use distributed_asynchronous.Api.Http.{HttpError}
use distributed_asynchronous.Api.Jobs.{is_valid, is_valid_schedule, is_valid_task_spec}
use distributed_asynchronous.Constants.TaskType
use distributed_asynchronous.Constants.ScheduleType
use distributed_asynchronous.Api.Jobs.Drafts.{
  draft_spec, max_draft_file_bytes, text_or, job_name_from_filename, JobDraftOut, command_for,
  draft_from_text, decode_text_file, draft_from_decoded, create_job_draft_from_file,
}

text_or_nonempty :
    (other : String) (o : Option String)
    → str_eq other "" ≡ false
    → str_eq (text_or other o) "" ≡ false
text_or_nonempty other none h = h
text_or_nonempty other (some s) h = elim (Bool-cases (str_eq s "")) [
  | inl e ↦ rw e h
  | inr e ↦ rw e e
]

text_or_fits :
    (n : ℕ) (other s : String)
    → length (codes other) ≤ n
    → length (codes s) ≤ n
    → length (codes (text_or other (some s))) ≤ n
text_or_fits n other s h k = elim (Bool-cases (str_eq s "")) [ inl e ↦ rw e h | inr e ↦ rw e k ]

choice_nonempty : (b : Bool) → str_eq (if b then "python" else "sh") "" ≡ false
choice_nonempty true = refl
choice_nonempty false = refl

command_nonempty : (filename : Option String) → str_eq (command_for filename) "" ≡ false
unfolding command_for
command_nonempty filename = choice_nonempty _

name_fits : (filename : Option String) → length (codes (job_name_from_filename filename)) ≤ 255
unfolding job_name_from_filename
name_fits filename =
    text_or_fits 255 "uploaded-task" _ (omega arith)
      (length-prefix 255 (strip (stem_of (text_or "uploaded-task" filename))))

name_nonempty : (filename : Option String) → str_eq (job_name_from_filename filename) "" ≡ false
unfolding job_name_from_filename
name_nonempty filename =
    text_or_nonempty "uploaded-task"
      (some (prefix 255 (strip (stem_of (text_or "uploaded-task" filename))))) refl

accepted :
    (cron_is_valid : String → Bool) (name description command source content : String)
    → str_eq name "" ≡ false
    → length (codes name) ≤ 255
    → str_eq command "" ≡ false
    → is_valid cron_is_valid (record {
      name = name;
      description = some description;
      category = none;
      task_type = TaskType.shell;
      task_spec = draft_spec command source content;
      schedule_type = ScheduleType.manual;
      schedule_expr = none;
      timezone = "UTC";
      enabled = true;
      max_retries = 0;
      retry_backoff_sec = 30;
      timeout_sec = 300;
      depends_on = [];
    })
      ≡ true
unfolding is_valid is_valid_schedule is_valid_task_spec has get truthy
accepted cron_is_valid name description command source content h k c = ground arith

-- JobBase accepts every draft.
draft_from_text-valid :
    (cron_is_valid : String → Bool) (filename : Option String) (content : String)
    → is_valid cron_is_valid (draft_from_text filename content).base ≡ true
unfolding draft_from_text
draft_from_text-valid cron_is_valid filename content =
    accepted cron_is_valid (job_name_from_filename filename) _ (command_for filename) _ content
      (name_nonempty filename) (name_fits filename) (command_nonempty filename)

take_all : {A : Type 0} (n : ℕ) (xs : List A) → length xs ≤ n → take n xs ≡ xs
take_all zero [] h = refl
take_all zero (x ∷ xs) h = absurd (omega arith)
take_all (suc n) [] h = refl
take_all (suc n) (x ∷ xs) h = ground (arith, take_all n xs)

too_large :
    (upload : List ℕ)
    → max_draft_file_bytes < length upload
    → ltb max_draft_file_bytes (length (take (max_draft_file_bytes + 1) upload)) ≡ true
too_large upload h = ground (arith, length-take (max_draft_file_bytes + 1) upload)

small_enough :
    (upload : List ℕ)
    → length upload ≤ max_draft_file_bytes
    → ltb max_draft_file_bytes (length upload) ≡ false
small_enough upload h = ground arith

-- A draft of the file: JobBase accepts it, and it carries the name and the text of the file. Or why there is
-- none: the file is too large, or it is no UTF-8 text.
abbrev pub Drafts :
    (decode : List ℕ → Option String) (cron_is_valid : String → Bool) (filename : Option String)
    → List ℕ
    → Result HttpError JobDraftOut
    → Type 0
Drafts decode cron_is_valid filename upload (ok draft) =
    (length upload ≤ max_draft_file_bytes)
    × (decode upload ≡ some draft.file_content)
    × (draft ≡ draft_from_text filename draft.file_content)
    × (is_valid cron_is_valid draft.base ≡ true)
Drafts decode cron_is_valid filename upload (err e) =
    ((e.status_code ≡ 413) × (max_draft_file_bytes < length upload))
    ⊎ ((e.status_code ≡ 400) × (length upload ≤ max_draft_file_bytes) × (decode upload ≡ none))

module _ (decode : List ℕ → Option String) (cron_is_valid : String → Bool)
    (filename : Option String) where
  decoded-Drafts :
      (upload : List ℕ) (o : Option String)
      → length upload ≤ max_draft_file_bytes
      → decode upload ≡ o
      → (let answer =
            draft_from_decoded decode cron_is_valid filename
              (decode_text_file decode cron_is_valid upload) in
          Drafts decode cron_is_valid filename upload answer)
  unfolding decode_text_file draft_from_text
  decoded-Drafts upload none h e = rw (e, decode_text_file) (inr (refl, h, e))
  decoded-Drafts upload (some content) h e =
      let valid = draft_from_text-valid cron_is_valid filename content in
      rw (e, decode_text_file, valid) (h, e, refl, valid)

  -- An uploaded file of at most 128 KiB that decodes as UTF-8 becomes a draft with its text, whatever
  -- its name is, and JobBase accepts the draft, so that no upload ends in an internal error; a
  -- larger file is refused with 413, and one that does not decode with 400.
  pub create_job_draft_from_file-Drafts :
      (upload : List ℕ)
      → Drafts decode cron_is_valid filename upload
          (create_job_draft_from_file decode cron_is_valid filename upload)
  unfolding create_job_draft_from_file
  create_job_draft_from_file-Drafts upload = elim (dec_lt max_draft_file_bytes (length upload)) [
    | yes large ↦ rw (too_large upload large) (inl (refl, large))
    | no small ↦
        let fits : length upload ≤ max_draft_file_bytes = omega arith in
        rw (take_all (max_draft_file_bytes + 1) upload (omega arith), small_enough upload fits)
          (decoded-Drafts upload (decode upload) fits refl)
  ]
