-- ===== src/Executors/Shell/Uploads.antt =====
-- The uploaded scripts of backend/worker/executors/shell.py: where they are written, and how the drafts
-- of backend/api/routers/jobs.py are run.
use distributed_asynchronous.Prelude.{
  codes, lower_code, map, ◌≡◌, refl, ap, inl, inr, String, Bool, true, false, Option, none, some,
  List, [], ◌∷◌, if◌then◌else◌, Result, ok as returns, err, joined, str_eq, str_eq_iff, Bool-cases,
}
use distributed_asynchronous.Auth.Text.{equal}
use distributed_asynchronous.FilePath.{
  suffix_of, name_of, lacks_slash, name_of-lacks_slash, name_of-name_of,
}
use distributed_asynchronous.Models.Json.{Json, text, null, arr, Items, nil, cons, Fields, get}
use distributed_asynchronous.Executors.Shell.{
  Spec, Script, build_argv, rewrite, is_invalid_name, script_of, with_script,
  materialize_uploaded_script,
}
use distributed_asynchronous.Api.Jobs.Drafts.{text_or, draft_from_text, command_for}

-- The members of the task's specification, where they are texts and `args` is a list of texts.
abbrev texts : Items → Option (List String)
texts nil = some []
texts (cons (text s) rest) = elim (texts rest) [ none ↦ none | some ss ↦ some (s ∷ ss) ]
texts (cons other rest) = none

abbrev text_at : Option Json → Option (Option String)
text_at none = some none
text_at (some null) = some none
text_at (some (text s)) = some (some s)
text_at (some other) = none

abbrev texts_at : Option Json → Option (List String)
texts_at none = some []
texts_at (some null) = some []
texts_at (some (arr vs)) = texts vs
texts_at (some other) = none

unfoldable pub spec_of : Fields → Option Spec
spec_of fs = elim (get "command" fs) [
  | some (text command) ↦ elim (texts_at (get "args" fs)) [
    | none ↦ none
    | some args ↦ elim (text_at (get "source_filename" fs)) [
      | none ↦ none
      | some source ↦ elim (text_at (get "file_content" fs)) [
        | none ↦ none
        | some content ↦ some (record {
          command = command;
          args = args;
          source_filename = source;
          file_content = content;
        })
      ]
    ]
  ]
  | _ ↦ none
]

module _ (split : String → Result String (List String)) (join : List String → String)
    (dir : String) where
  -- A script lies directly in the temporary directory.
  pub record IsInside (script : Script split join name_of dir) : Type 0 where
    pub filename : String
    pub path : script.path ≡ joined (dir ∷ "/" ∷ filename ∷ [])
    pub one_component : lacks_slash filename ≡ true
    pub proper : is_invalid_name split join name_of dir filename ≡ false

  abbrev pub StaysInside : Result String (Option (Script split join name_of dir)) → Type 0
  StaysInside (err exc) = Unit
  StaysInside (returns none) = Unit
  StaysInside (returns (some script)) = IsInside script

  -- Whatever name a task's specification gives to the uploaded script, the script is written directly in
  -- the temporary directory: its path is the directory's with one component that has no slash and
  -- is neither empty nor a dot nor two dots.
  pub materialize_inside :
      (spec : Spec) (argv : List String)
      → StaysInside (materialize_uploaded_script split join name_of dir spec argv)
  unfolding materialize_uploaded_script
  materialize_inside spec argv = go spec.file_content spec.source_filename
    where
      go :
          (content source : Option String)
          → StaysInside (script_of split join name_of dir content source argv)
      go none source = tt
      go (some content) none = tt
      go (some content) (some source) =
          elim (Bool-cases (is_invalid_name split join name_of dir (name_of source))) [
            | inl invalid ↦ rw invalid tt
            | inr proper ↦ rw proper (record {
              filename = name_of source;
              path = refl;
              one_component = name_of-lacks_slash source;
              proper = proper;
            })
          ]

abbrev pub draft_task : String → String → String → Spec
draft_task command filename content = record {
  command = command;
  args = filename ∷ [];
  source_filename = some filename;
  file_content = some content;
}

-- The task that a draft describes.
spec_of_draft :
    (filename : Option String) (content : String)
    → spec_of (draft_from_text filename content).base.task_spec
      ≡ some
          (draft_task (command_for filename) (name_of (text_or "uploaded-task" filename)) content)
unfolding spec_of draft_from_text get
spec_of_draft filename content = refl

choice_named : (b : Bool) → name_of (if b then "python" else "sh") ≡ (if b then "python" else "sh")
unfolding name_of
choice_named true = refl
choice_named false = refl

command_named : (filename : Option String) → name_of (command_for filename) ≡ command_for filename
unfolding command_for
command_named filename = choice_named _

-- python for a suffix .py in letters of either case, and sh otherwise.
abbrev pub program_of : Option String → String
program_of filename =
    if equal (map lower_code (codes (suffix_of (text_or "" filename)))) (b'.' ∷ b'p' ∷ b'y' ∷ [])
    then "python"
    else "sh"

module _ (split : String → Result String (List String)) (join : List String → String)
    (dir : String) where
  -- The script in the temporary directory and the command that runs it.
  abbrev pub script_run : (command filename content : String) → Script split join name_of dir
  script_run command filename content =
      let path = joined (dir ∷ "/" ∷ filename ∷ []) in
      record {
        path = path;
        content = content;
        argv = if str_eq command filename then path ∷ path ∷ [] else command ∷ path ∷ [];
      }

  rewritten :
      (command filename path : String)
      → name_of command ≡ command
      → name_of filename ≡ filename
      → with_script split join name_of dir path
          (rewrite split join name_of dir filename path (command ∷ filename ∷ []))
        ≡ (if str_eq command filename then path ∷ path ∷ [] else command ∷ path ∷ [])
  unfolding rewrite
  rewritten command filename path c f =
      rw (c, f, (str_eq_iff filename filename).1 refl) (chosen (str_eq command filename))
    where
      chosen :
          (b : Bool)
          → with_script split join name_of dir path
              (if b then (path ∷ path ∷ [], true) else (command ∷ path ∷ [], true))
            ≡ (if b then path ∷ path ∷ [] else command ∷ path ∷ [])
      chosen true = refl
      chosen false = refl

  build_plain :
      (command filename content : String)
      → split command ≡ returns (command ∷ [])
      → build_argv split join name_of dir (draft_task command filename content)
        ≡ returns (command ∷ filename ∷ [])
  unfolding build_argv
  build_plain command filename content plain = rw (plain, build_argv) refl

  script_of_task :
      (command filename content : String)
      → name_of command ≡ command
      → name_of filename ≡ filename
      → materialize_uploaded_script split join name_of dir
          (draft_task command filename content)
          (command ∷ filename ∷ [])
        ≡ (if is_invalid_name split join name_of dir filename
            then err "source_filename is invalid"
            else returns (some (script_run command filename content)))
  unfolding materialize_uploaded_script
  script_of_task command filename content c f = rw f (
      ap
        (λ argv.
          if is_invalid_name split join name_of dir filename
          then err "source_filename is invalid"
          else returns (
              some (record {
                path = joined (dir ∷ "/" ∷ filename ∷ []);
                content = content;
                argv = argv;
              })))
        (rewritten command filename (joined (dir ∷ "/" ∷ filename ∷ [])) c f))

  -- The task of a draft as the shell executor takes it: its members, the arguments, and the script.
  abbrev pub RunsDraft : (command filename content : String) → Fields → Type 0
  RunsDraft command filename content task_spec =
      (spec_of task_spec ≡ some (draft_task command filename content))
      × (build_argv split join name_of dir (draft_task command filename content)
          ≡ returns (command ∷ filename ∷ []))
      × (materialize_uploaded_script split join name_of dir (draft_task command filename content)
            (command ∷ filename ∷ [])
          ≡ (if is_invalid_name split join name_of dir filename
              then err "source_filename is invalid"
              else returns (some (script_run command filename content))))

  -- A draft of an uploaded file, as the shell executor takes it: where the name of the file is a proper
  -- one, its text is written under the name into the temporary directory and run by python if the
  -- suffix of the name is .py in letters of either case, and by sh otherwise;
  -- but where the name is that of the command itself, the script's path takes the command's place
  -- too. Where the name is not proper, the task is refused. The condition is that shlex.split gives
  -- the one word of the command as it is.
  pub draft_from_text-RunsDraft :
      (filename : Option String) (content : String)
      → split (program_of filename) ≡ returns (program_of filename ∷ [])
      → RunsDraft
          (program_of filename)
          (name_of (text_or "uploaded-task" filename))
          content
          (draft_from_text filename content).base.task_spec
  unfolding command_for
  draft_from_text-RunsDraft filename content plain =
      let name = name_of (text_or "uploaded-task" filename) in
      (
        spec_of_draft filename content,
        build_plain (command_for filename) name content plain,
        script_of_task (command_for filename) name content (command_named filename)
            (name_of-name_of (text_or "uploaded-task" filename)),
      )
