-- ===== src/Executors/HttpAsync.antt =====
-- backend/worker/executors/http_async.py, from the submission on: the options of the task are read, and
-- the replies of the remote service, the clock and str, upper and lower of Python are given. A time
-- is a number of microseconds of time.monotonic().
pub mod Polling
use distributed_asynchronous.Prelude.{
  ℕ, zero, suc, ◌+◌, ◌-◌, String, Bool, true, false, Option, none, some, List, [], ◌∷◌, ◌++◌, min,
  leb, if◌then◌else◌, Result, ok as returns, err, str_eq, joined, show,
}
use distributed_asynchronous.Constants.{word_in}
use distributed_asynchronous.Models.{Time, seconds}
use distributed_asynchronous.Models.Json.{
  pos, Json, null, bool, num, text, arr, obj, Fields, end, field, get, truthy,
}
use distributed_asynchronous.Executors.{Ending, ok as ends_well, failure, timeout}

-- The options of the task.
pub record Options : Type 0 where
  pub url : String
  pub method : String
  pub status_url : Json
  pub status_url_field : String
  pub status_field : String
  pub success_values : List String
  pub failure_values : List String
  pub poll_interval : Time
  pub result_field : String
  pub timeout_sec : ℕ

-- A reply of the service: an httpx.HTTPError, or a body, which is `none` where it is not JSON.
pub data Reply : Type 0 where
  http_error : String → Reply
  response : Option Json → Reply

-- What happens outside: the reply to the submission, and for each round of polling the reply, the
-- time that it takes, and the time by which the event loop wakes the task late.
pub record World : Type 0 where
  pub str_of : Json → String
  pub lower : String → String
  pub invalid_json : String
  pub interval_text : String
  pub submission : Reply
  pub submission_time : Time
  pub reply : ℕ → Reply
  pub reply_time : ℕ → Time
  pub late : ℕ → Time

-- An exception that `execute` does not catch: a value that is not a dictionary has no `get`.
pub data Crash : Type 0 where
  attribute_error : Crash

abbrev pub Lines : Type 0
Lines = List (String × String)

-- d.get(key, default)
abbrev pub get_or : (default : Json) → Option Json → Json
get_or default none = default
get_or default (some v) = v

-- d[key] = value
unfoldable pub put : String → Json → Fields → Fields
put key value end = field key value end
put key value (field k v rest) =
    let rest' = put key value rest in if str_eq k key then field k value rest else field k v rest'

module _ (world : World) (options : Options) where
  open world use {str_of, lower}
  open options use {success_values, failure_values, result_field}

  -- str(payload.get(status_field, "")).lower()
  unfoldable pub state_of : Fields → String
  state_of payload = lower (str_of (get_or (text "") (get options.status_field payload)))

  abbrev pub copied : Option Json → Fields → Fields
  copied none result = result
  copied (some value) result = put result_field value result

  abbrev pub status_result : String → Fields
  status_result state = field "status" (text state) end

  unfoldable pub success_result : (state : String) → Fields → Fields
  success_result state payload =
      if str_eq result_field ""
      then status_result state
      else copied (get result_field payload) (status_result state)

  -- What a payload decides; `none` where the polling goes on.
  unfoldable pub verdict_of : Json → Option (Result Crash Ending)
  verdict_of null = some (err attribute_error)
  verdict_of (bool b) = some (err attribute_error)
  verdict_of (num n) = some (err attribute_error)
  verdict_of (text s) = some (err attribute_error)
  verdict_of (arr vs) = some (err attribute_error)
  verdict_of (obj payload) =
      let state = state_of payload in
      if word_in success_values state
      then some (returns (ends_well (some (pos 0)) (some (success_result state payload))))
      else if word_in failure_values state
      then some (
          returns (
            failure (joined ("remote task reported '" ∷ state ∷ "'" ∷ [])) none
              (some (status_result state))))
      else none

  -- The payload of a round: an error counts as an empty one.
  unfoldable pub payload_of : Reply → Json
  payload_of (http_error exc) = obj end
  payload_of (response none) = obj end
  payload_of (response (some payload)) = payload

  abbrev state_lines : Json → Lines
  state_lines (obj payload) =
      if str_eq (state_of payload) ""
      then []
      else ("stdout", joined ("status=" ∷ state_of payload ∷ [])) ∷ []
  state_lines other = []

  unfoldable pub lines_of : Reply → Lines
  lines_of (http_error exc) =
      ("stderr", joined ("poll error (will retry): " ∷ exc ∷ [])) ∷ state_lines (obj end)
  lines_of (response none) =
      ("stderr", joined ("poll error (will retry): " ∷ world.invalid_json ∷ []))
      ∷ state_lines (obj end)
  lines_of (response (some payload)) = state_lines payload

  -- The clock after a round that began at `now`: a sleep until the next poll, cut at the deadline,
  -- or none where the deadline has passed.
  unfoldable pub after_round : (deadline : Time) → (round : ℕ) → (now : Time) → Time
  after_round deadline round now =
      let asked = now + world.reply_time round in
      if leb deadline asked
      then asked
      else asked + min options.poll_interval (deadline - asked) + world.late round

  unfoldable pub exceeded : (status_url : Json) → Ending
  exceeded status_url =
      timeout (joined ("polling exceeded timeout of " ∷ show options.timeout_sec ∷ "s" ∷ [])) none
        (some (field "status_url" status_url end))

  abbrev pub prefixed :
      Lines → Option (Lines × Result Crash Ending) → Option (Lines × Result Crash Ending)
  prefixed lines none = none
  prefixed lines (some (rest, ending)) = some (lines ++ rest, ending)

  abbrev pub decide :
      Lines
      → Option (Result Crash Ending)
      → Option (Lines × Result Crash Ending)
      → Option (Lines × Result Crash Ending)
  decide lines (some ending) later = some (lines, ending)
  decide lines none later = prefixed lines later

  -- The `while True` loop, with the lines that it logs; `none` when the fuel is used up.
  unfoldable pub poll_loop :
      ℕ
      → (status_url : Json) (deadline : Time) (round : ℕ) (now : Time)
      → Option (Lines × Result Crash Ending)
  poll_loop zero status_url deadline round now = none
  poll_loop (suc fuel) status_url deadline round now =
      let later = poll_loop fuel status_url deadline (round + 1) (after_round deadline round now) in
      let reply = world.reply round in
      if leb deadline now
      then some ([], returns (exceeded status_url))
      else decide (lines_of reply) (verdict_of (payload_of reply)) later

  -- The rest of `execute`, once the status address is known.
  unfoldable pub polling :
      ℕ → (status_url : Json) (deadline now : Time) → Option (Lines × Result Crash Ending)
  polling fuel status_url deadline now =
      prefixed
        ((
          "system",
          joined ("polling " ∷ str_of status_url ∷ " every " ∷ world.interval_text ∷ "s" ∷ []),
        )
          ∷ [])
        (poll_loop fuel status_url deadline 0 now)

  -- The status address in the reply to the submission.
  unfoldable pub url_in_reply : Option Json → Result Crash Json
  url_in_reply none = returns null
  url_in_reply (some null) = err attribute_error
  url_in_reply (some (bool b)) = err attribute_error
  url_in_reply (some (num n)) = err attribute_error
  url_in_reply (some (text s)) = err attribute_error
  url_in_reply (some (arr vs)) = err attribute_error
  url_in_reply (some (obj body)) = returns (get_or null (get options.status_url_field body))

  abbrev pub poll_at :
      ℕ → Result Crash Json → (deadline now : Time) → Option (Lines × Result Crash Ending)
  poll_at fuel (err e) deadline now = some ([], err e)
  poll_at fuel (returns status_url) deadline now =
      let started = polling fuel status_url deadline now in
      if truthy status_url
      then started
      else some (
        [],
        returns (
            failure
              (joined (
                "no status_url provided and response had no '" ∷ options.status_url_field ∷ "'"
                ∷ []))
              none none),
      )

  abbrev pub after_submission :
      ℕ → Reply → (deadline now : Time) → Option (Lines × Result Crash Ending)
  after_submission fuel (http_error exc) deadline now =
      some ([], returns (failure (joined ("submission failed: " ∷ exc ∷ [])) none none))
  after_submission fuel (response body) deadline now =
      let given = polling fuel options.status_url deadline now in
      let read = poll_at fuel (url_in_reply body) deadline now in
      if truthy options.status_url then given else read

  -- execute; the fuel bounds the rounds of polling.
  unfoldable pub execute : ℕ → (now : Time) → Option (Lines × Result Crash Ending)
  execute fuel now =
      prefixed (("system", joined ("submit " ∷ options.method ∷ " " ∷ options.url ∷ [])) ∷ []) (
        after_submission fuel world.submission (now + seconds options.timeout_sec)
          (now + world.submission_time))
