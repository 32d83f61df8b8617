-- ===== src/Api/Health.antt =====
-- backend/api/routers/health.py, and what backend/api/main.py wraps around every request.
use distributed_asynchronous.Prelude.{
  ℕ, ◌+◌, ◌-◌, ◌≡◌, String, Bool, true, false, ◌&&◌, Option, none, some, List, [], ◌∷◌, ◌++◌, arith,
  str_eq, if◌then◌else◌, show, joined, Result, ok, err,
}

-- The reply of /readyz: its status code, its status and its two checks.
pub record Readiness : Type 0 where
  pub status_code : ℕ
  pub status : String
  pub database : String
  pub redis : String

-- What a check of a dependency raises, if anything, as a text.
abbrev pub check : Option String → String
check none = "ok"
check (some exc) = joined ("error: " ∷ exc ∷ [])

abbrev pub has_passed : Option String → Bool
has_passed none = true
has_passed (some exc) = false

-- readyz: `database` is what SELECT 1 raises, and `redis` what PING does.
unfoldable pub readyz : (database redis : Option String) → Readiness
readyz database redis =
    let is_ok = has_passed database && has_passed redis in
    record {
      status_code = if is_ok then 200 else 503;
      status = if is_ok then "ok" else "degraded";
      database = check database;
      redis = check redis;
    }

-- _route_path: the path of the route that the request has matched, if any.
unfoldable pub route_path : Option String → String
route_path none = "__unmatched__"
route_path (some path) = if str_eq path "" then "__unmatched__" else path

-- The labels of each increment of HTTP_REQUESTS, and the gauge HTTP_INFLIGHT: the requests in progress.
pub record HttpMetrics : Type 0 where
  pub requests : List (String × (String × String))
  pub inflight : ℕ

-- The status code that is counted: 500 where the rest of the application raises.
abbrev pub counted_status {ℓ} : {E : Type 0} {A : Type ℓ} → (A → ℕ) → Result E A → ℕ
counted_status code_of (ok response) = code_of response
counted_status code_of (err e) = 500

-- metrics_middleware: `call_next` is the rest of the application, in which other requests come and go.
-- The histogram of durations is left out. Its answer or exception is passed on.
unfoldable pub metrics_middleware {ℓ} :
    {E : Type 0} {A : Type ℓ}
    → (code_of : A → ℕ) → (method : String) → (route : Option String)
    → (call_next : HttpMetrics → Result E A × HttpMetrics) → HttpMetrics
    → Result E A × HttpMetrics
metrics_middleware code_of method route call_next m =
    let (reply, m') = call_next (record m { inflight = m.inflight + 1 }) in
    (
      reply,
      record {
        requests =
            m'.requests ++ (method, (route_path route, show (counted_status code_of reply))) ∷ [];
        inflight = m'.inflight - 1;
      },
    )

-- Where the rest of the application leaves the gauge as it finds it, so does the middleware, whether a
-- response or an exception comes back.
pub metrics_middleware_inflight :
    {E A : Type 0} (code_of : A → ℕ) (method : String) (route : Option String)
    (call_next : HttpMetrics → Result E A × HttpMetrics) (m : HttpMetrics)
    → ((n : HttpMetrics) → (call_next n).1.inflight ≡ n.inflight)
    → (metrics_middleware code_of method route call_next m).1.inflight ≡ m.inflight
unfolding metrics_middleware
metrics_middleware_inflight code_of method route call_next m balanced =
    omega (arith, balanced (record m { inflight = m.inflight + 1 }))
