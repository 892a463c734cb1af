-- ===== src/Metrics.antt =====
-- app/metrics.py: the counters and gauges, and the functions that record in them. A histogram keeps
-- the number of its observations by label; the durations themselves are not modelled.
pub mod Laws
use webhook_ingestion_servic.Prelude.{
  ℕ, ◌+◌, String, Bool, ◌&&◌, Option, none, some, List, [], ◌∷◌, str_eq, ltb, ◌==◌, if◌then◌else◌,
}

-- A labelled counter or gauge: a value for each label set that was used.
abbrev pub Series : Type 0 → Type 0
Series K = List (K × ℕ)

module _ {K : Type 0} where
  -- `labels(...).inc(n)`, where `same` is equality with the label set.
  unfoldable pub inc : (K → Bool) → K → ℕ → Series K → Series K
  inc same key n [] = (key, n) ∷ []
  inc same key n ((k, v) ∷ rest) =
      if same k then (k, v + n) ∷ rest else (k, v) ∷ inc same key n rest

  -- `labels(...).set(n)`
  unfoldable pub put : (K → Bool) → K → ℕ → Series K → Series K
  put same key n [] = (key, n) ∷ []
  put same key n ((k, v) ∷ rest) = if same k then (k, n) ∷ rest else (k, v) ∷ put same key n rest

  -- The value of a label set, 0 if it was never used.
  unfoldable pub value : (K → Bool) → Series K → ℕ
  value same [] = 0
  value same ((k, v) ∷ rest) = if same k then v else value same rest

abbrev pub Outcome : Type 0
Outcome = String × String

abbrev pub same_outcome : Outcome → Outcome → Bool
same_outcome (source, status) (source', status') = str_eq source' source && str_eq status' status

pub record Request : Type 0 where
  pub method : String
  pub path : String
  pub status : ℕ

abbrev pub same_request : Request → Request → Bool
same_request r q = str_eq q.method r.method && (str_eq q.path r.path && q.status == r.status)

abbrev pub same_endpoint : Outcome → Outcome → Bool
same_endpoint = same_outcome

abbrev pub same_text : String → String → Bool
same_text a b = str_eq b a

pub record Metrics : Type 0 where
  pub http_requests_total : Series Request
  pub http_request_duration_seconds : Series (String × String)
  pub webhook_intake_total : Series Outcome
  pub webhook_signature_failures_total : ℕ
  pub webhook_duplicate_total : ℕ
  pub webhook_processing_total : Series Outcome
  pub webhook_processing_duration_seconds : Series Outcome
  pub webhook_retry_total : ℕ
  pub webhook_redrive_total : ℕ
  pub webhook_queue_depth : Series String
  pub dependency_up : Series String

-- `x or "unknown"`, `path or "/"`
abbrev pub or_text : String → String → String
or_text s default = if str_eq s "" then default else s

unfoldable pub record_http_request : String → String → ℕ → Metrics → Metrics
record_http_request method path status_code m =
    let normalized_path = or_text path "/" in
    let request : Request = record {
      method = method;
      path = normalized_path;
      status = status_code;
    } in
    record m {
      http_requests_total = inc (same_request request) request 1 m.http_requests_total;
      http_request_duration_seconds =
          inc (same_endpoint (method, normalized_path)) (method, normalized_path) 1
            m.http_request_duration_seconds;
    }

unfoldable pub record_webhook_intake : String → String → Metrics → Metrics
record_webhook_intake source status m =
    let labels : Outcome = (or_text source "unknown", status) in
    record m { webhook_intake_total = inc (same_outcome labels) labels 1 m.webhook_intake_total }

unfoldable pub record_signature_failure : Metrics → Metrics
record_signature_failure m = record m {
  webhook_signature_failures_total = m.webhook_signature_failures_total + 1;
}

unfoldable pub record_duplicate : Metrics → Metrics
record_duplicate m = record m { webhook_duplicate_total = m.webhook_duplicate_total + 1 }

unfoldable pub record_processing : String → String → Metrics → Metrics
record_processing source status m =
    let labels : Outcome = (or_text source "unknown", status) in
    record m {
      webhook_processing_total = inc (same_outcome labels) labels 1 m.webhook_processing_total;
      webhook_processing_duration_seconds =
          inc (same_outcome labels) labels 1 m.webhook_processing_duration_seconds;
    }

unfoldable pub record_retry : Metrics → Metrics
record_retry m = record m { webhook_retry_total = m.webhook_retry_total + 1 }

unfoldable pub record_redrive : ℕ → Metrics → Metrics
record_redrive count m =
    if ltb 0 count then record m { webhook_redrive_total = m.webhook_redrive_total + count } else m

-- `float(value or 0)`
abbrev pub or_zero : Option ℕ → ℕ
or_zero none = 0
or_zero (some n) = n

-- The loop over the dictionary of three names, unrolled.
unfoldable pub set_queue_depths : Option ℕ → Option ℕ → Option ℕ → Metrics → Metrics
set_queue_depths main_depth retry_depth dead_letter_depth m =
    let main = put (same_text "main") "main" (or_zero main_depth) m.webhook_queue_depth in
    let retry = put (same_text "retry") "retry" (or_zero retry_depth) main in
    record m {
      webhook_queue_depth =
          put (same_text "dead_letter") "dead_letter" (or_zero dead_letter_depth) retry;
    }

unfoldable pub set_dependency_state : String → Bool → Metrics → Metrics
set_dependency_state name is_up m = record m {
  dependency_up = put (same_text name) name (if is_up then 1 else 0) m.dependency_up;
}
