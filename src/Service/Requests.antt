-- ===== src/Service/Requests.antt =====
-- The request middleware of app/main.py (`log_requests`): the request id and the count of requests.
use webhook_ingestion_servic.Prelude.{
  ℕ, ◌+◌, ◌≡◌, refl, ◌↔◌, String, true, Option, eq_iff, arith, if◌then◌else◌,
}
use webhook_ingestion_servic.Metrics.{
  Request, same_request, same_endpoint, or_text, value, record_http_request,
}
use webhook_ingestion_servic.Metrics.Laws.{value-inc}
use webhook_ingestion_servic.Runtime.{
  Runtime, World, Action, Outcome, ok, raise, try_except, record_metric, pure, throw, ◌>>=◌, ◌>>◌,
}
use webhook_ingestion_servic.Service.{choose_request_id, log_requests}

same_request-lawful : (a b : Request) → (same_request a b ≡ true) ↔ (a ≡ b)
same_request-lawful a b = ground (arith, eq_iff b.method a.method, eq_iff b.path a.path)

-- The count of a label set after the request was recorded.
abbrev pub Counted : (method path : String) → ℕ → World → World → Type 0
Counted method path status u v =
    (r : Request)
    → value (same_request r) v.metrics.http_requests_total
      ≡ value (same_request r) u.metrics.http_requests_total
        + (if same_request r (record { method = method; path = or_text path "/"; status = status })
            then 1
            else 0)

counted :
    (method path : String) (status : ℕ) (u : World)
    → Counted method path status u
        (record u { metrics = record_http_request method path status u.metrics })
unfolding record_http_request
counted method path status u r = value-inc same_request same_request-lawful r _ 1 _

-- The observations of a duration for a label set after the request was recorded.
abbrev pub Observed : (method path : String) → World → World → Type 0
Observed method path u v =
    (r : String × String)
    → value (same_endpoint r) v.metrics.http_request_duration_seconds
      ≡ value (same_endpoint r) u.metrics.http_request_duration_seconds
        + (if same_endpoint r (method, or_text path "/") then 1 else 0)

same_endpoint-lawful : (a b : String × String) → (same_endpoint a b ≡ true) ↔ (a ≡ b)
same_endpoint-lawful a b = ground (arith, eq_iff b.0 a.0, eq_iff b.1 a.1)

observed :
    (method path : String) (status : ℕ) (u : World)
    → Observed method path u
        (record u { metrics = record_http_request method path status u.metrics })
unfolding record_http_request
observed method path status u r = value-inc same_endpoint same_endpoint-lawful r _ 1 _

-- Apart from the two metrics of the middleware, nothing differs.
abbrev pub OnlyRequests : World → World → Type 0
OnlyRequests u v = v ≡ record u {
  metrics = record u.metrics {
    http_requests_total = v.metrics.http_requests_total;
    http_request_duration_seconds = v.metrics.http_request_duration_seconds;
  };
}

only_requests :
    (method path : String) (status : ℕ) (u : World)
    → OnlyRequests u (record u { metrics = record_http_request method path status u.metrics })
unfolding record_http_request
only_requests method path status u = refl

-- The request was recorded with the status, and nothing else was.
abbrev pub Records : (method path : String) → ℕ → World → World → Type 0
Records method path status u v =
    Counted method path status u v × Observed method path u v × OnlyRequests u v

records :
    (method path : String) (status : ℕ) (u : World)
    → Records method path status u
        (record u { metrics = record_http_request method path status u.metrics })
records method path status u = (
  counted method path status u,
  observed method path status u,
  only_requests method path status u,
)

-- What the middleware makes of the handler's outcome: it is passed on, and recorded once.
abbrev pub Passes :
    (method path request_id : String) → Outcome ℕ × World → Outcome (ℕ × String) × World → Type 0
Passes method path request_id (r, u) (ok (status, id), v) =
    (r ≡ ok status) × (id ≡ request_id) × Records method path status u v
Passes method path request_id (r, u) (raise x, v) = (r ≡ raise x) × Records method path 500 u v

passed :
    (method path request_id : String) (w : World) (p : Outcome ℕ × World)
    → Passes method path request_id p (
        try_except
          ((λ (u : World). p) >>= λ status_code. do
            record_metric (record_http_request method path status_code)
            pure (status_code, request_id))
          (λ e. do record_metric (record_http_request method path 500); throw e)
          w)
passed method path request_id w (ok status, u) = (refl, refl, records method path status u)
passed method path request_id w (raise x, u) = (refl, records method path 500 u)

-- The middleware, for any handler. It gives the handler the request id of the header, or a fresh one
-- where the header is missing or empty. If the handler answers, so does the middleware, with that id,
-- and the answer's status is counted once for the method and the path; if the handler raises, the
-- exception is raised on and a 500 is counted once. One duration is observed for the method and the
-- path. No other label set of these two metrics is touched, and after the handler nothing else is: no
-- other metric, no row, no external call.
pub log_requests-Passes :
    (rt : Runtime) (method path : String) (header : Option String) (call_next : String → Action ℕ)
    (w : World)
    → let request_id = choose_request_id rt header (rt.str_of_uuid (rt.uuid4 w.history)) in
      Passes method path request_id
        (call_next request_id w)
        (log_requests rt method path header call_next w)
unfolding log_requests
log_requests-Passes rt method path header call_next w =
    let request_id = choose_request_id rt header (rt.str_of_uuid (rt.uuid4 w.history)) in
    passed method path request_id w (call_next request_id w)
