-- ===== src/Samples/Polls.antt =====
-- Runs of the executor of backend/worker/executors/http_async.py.
use distributed_asynchronous.Prelude.{
  ℕ, zero, suc, ◌≡◌, refl, arith, String, none, some, [], ◌∷◌, Result, ok,
}
use distributed_asynchronous.Models.Json.{Json, text, obj, end, field, pos, get}
use distributed_asynchronous.Executors.{Ending, ok as ends_well}
use distributed_asynchronous.Executors.HttpAsync.{
  Options, World, Reply, http_error, response, Crash, Lines, status_result, poll_loop, verdict_of,
  payload_of, lines_of, state_of, success_result, after_round, exceeded,
}
use distributed_asynchronous.Executors.HttpAsync.Polling.{EndsAfter, poll_loop-EndsAfter}

abbrev options : Options
options = record {
  url = "http://service/jobs";
  method = "POST";
  status_url = text "http://service/jobs/1";
  status_url_field = "status_url";
  status_field = "status";
  success_values = "succeeded" ∷ "done" ∷ [];
  failure_values = "failed" ∷ [];
  poll_interval = 10_000_000;
  result_field = "";
  timeout_sec = 60;
}

abbrev text_of : Json → String
text_of (text s) = s
text_of other = ""

-- The first poll fails, the second finds the task running, and the later ones find it done.
abbrev reply : ℕ → Reply
reply zero = http_error "connection refused"
reply (suc zero) = response (some (obj (field "status" (text "running") end)))
reply (suc (suc n)) = response (some (obj (field "status" (text "done") end)))

abbrev world : World
world = record {
  str_of = text_of;
  lower = λ s. s;
  invalid_json = "";
  interval_text = "10.0";
  submission = response none;
  submission_time = 200_000;
  reply = reply;
  reply_time = λ n. 100_000;
  late = λ n. 1_000;
}

poll_loop_test :
    poll_loop world options 4 (text "http://service/jobs/1") 60_000_000 0 200_000
    ≡ some (
      ("stderr", "poll error (will retry): connection refused")
          ∷ ("stdout", "status=running")
          ∷ ("stdout", "status=done")
          ∷ [],
      ok (ends_well (some (pos 0)) (some (status_result world options "done"))),
    )
unfolding poll_loop verdict_of payload_of lines_of state_of success_result after_round exceeded get
poll_loop_test = refl

poll_loop_example :
    (n : ℕ) × (lines : Lines) × (ending : Result Crash Ending) × (poll_loop world options 59_800_001
        (text "http://service/jobs/1")
        60_000_000
        0
        200_000
      ≡ some (lines, ending))
    × EndsAfter world options (text "http://service/jobs/1") 60_000_000 n 0 200_000 ending
poll_loop_example =
    poll_loop-EndsAfter world options (text "http://service/jobs/1") 60_000_000 59_800_001 0 200_000
      (omega arith) (omega arith)
