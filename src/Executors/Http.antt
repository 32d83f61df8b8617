-- ===== src/Executors/Http.antt =====
-- backend/worker/executors/http.py, with the reply of the remote service given.
use distributed_asynchronous.Prelude.{
  ℕ, zero, suc, String, Bool, ◌&&◌, List, [], ◌∷◌, none, some, ltb, leb, contains, if◌then◌else◌,
  joined, show, str_eq,
}
use distributed_asynchronous.Models.Json.{pos, num, text, Fields, end, field}
use distributed_asynchronous.Executors.{Ending, ok, failure, timeout}

-- _is_success; an empty `expect` counts as none.
unfoldable pub is_success : (status_code : ℕ) → (expect : List ℕ) → Bool
is_success status_code [] = leb 200 status_code && ltb status_code 300
is_success status_code (code ∷ expect) = contains (code ∷ expect) status_code

-- What the request gives: httpx.TimeoutException, another httpx.HTTPError, or a response.
pub data Outcome : Type 0 where
  timed_out : Outcome
  http_error : String → Outcome
  response : (status_code : ℕ) (body : String) → Outcome

-- text[:n]
abbrev first_characters : ℕ → String → String
first_characters zero s = ""
first_characters (suc n) String.[] = ""
first_characters (suc n) (String.◌∷◌ c s) = String.◌∷◌ c (first_characters n s)

abbrev pub Lines : Type 0
Lines = List (String × String)

abbrev snippet_lines : String → Lines
snippet_lines snippet = if str_eq snippet "" then [] else ("stdout", snippet) ∷ []

abbrev response_result : (status_code : ℕ) (snippet : String) → Fields
response_result status_code snippet =
    field "status_code" (num (pos status_code)) (field "body" (text snippet) end)

abbrev answer : (status_code : ℕ) (snippet : String) → (expect : List ℕ) → Ending
answer status_code snippet expect =
    if is_success status_code expect
    then ok (some (pos 0)) (some (response_result status_code snippet))
    else failure (joined ("unexpected status " ∷ show status_code ∷ [])) (some (pos status_code))
        (some (response_result status_code snippet))

-- The lines that `execute` logs after the request, and its result.
unfoldable pub after_request :
    (url : String) (timeout_sec : ℕ) (expect : List ℕ) → Outcome → Lines × Ending
after_request url timeout_sec expect timed_out = (
  [],
  timeout (joined ("request to " ∷ url ∷ " timed out after " ∷ show timeout_sec ∷ "s" ∷ [])) none
      none,
)
after_request url timeout_sec expect (http_error exc) =
    ([], failure (joined ("request error: " ∷ exc ∷ [])) none none)
after_request url timeout_sec expect (response status_code body) =
    let snippet = first_characters 2000 body in
    (
      ("stdout", joined ("status=" ∷ show status_code ∷ [])) ∷ snippet_lines snippet,
      answer status_code snippet expect,
    )

unfoldable pub execute :
    (method url : String) (timeout_sec : ℕ) (expect : List ℕ) → Outcome → Lines × Ending
execute method url timeout_sec expect outcome =
    let (lines, ending) = after_request url timeout_sec expect outcome in
    (("system", joined ("HTTP " ∷ method ∷ " " ∷ url ∷ [])) ∷ lines, ending)
