-- ===== src/Tools/Hardening.antt =====
-- tools/hardening_check.py: the policy that the repository's files are checked against.

pub mod Policy
use Prim.Native.String.{◌++◌ as append}
use webhook_ingestion_servic.Tools.Text.{contains}
use webhook_ingestion_servic.Prelude.{
  ℕ, String, Bool, true, false, Option, none, some, List, [], ◌∷◌, ◌++◌, leb, if◌then◌else◌,
}

-- The checked-out repository, by paths relative to its root: whether a path exists, its text, which is
-- missing where `read_text` raises, and whether the report can be written.
pub record Files : Type 0 where
  pub exists : String → Bool
  pub text : String → Option String
  pub writable : Bool

pub record Report : Type 0 where
  pub status : String
  pub checks : List String
  pub errors : List String

-- The report that is written, the lines that are printed, and the exit code.
pub record Run : Type 0 where
  pub report : Report
  pub printed : List String
  pub exit_code : ℕ

abbrev pub fail : List String → String → List String
fail errors message = errors ++ (message ∷ [])

abbrev pub missing_marker : String → String → String
missing_marker path marker = append path (append " is missing marker: " marker)

abbrev pub missing_asset : String → String
missing_asset path = append "missing required hardening asset: " path

-- The loop of `require_markers` over the markers.
unfoldable pub check_markers : String → String → List String → List String → List String
check_markers text path [] errors = errors
check_markers text path (marker ∷ markers) errors =
    check_markers text path markers
      (if contains text marker then errors else fail errors (missing_marker path marker))

abbrev dockerfile_markers : List String
dockerfile_markers = "adduser --disabled-password" ∷ "USER appuser" ∷ "HEALTHCHECK" ∷ []

abbrev ci_markers : List String
ci_markers =
    "Hardening policy check" ∷ "tools/hardening_check.py" ∷ "python -m ruff check app tests tools"
    ∷ "python -m pytest -q" ∷ "docker compose config" ∷ "tools/smoke_check.py"
    ∷ "tools/collect_logs.py" ∷ []

abbrev compose_markers : List String
compose_markers =
    "nginx:1.27-alpine" ∷ "rabbitmq:3.13-management-alpine" ∷ "RETRY_QUEUE_NAME"
    ∷ "DEAD_LETTER_QUEUE_NAME" ∷ "RABBITMQ_MAX_DELIVERY_ATTEMPTS" ∷ "prom/prometheus"
    ∷ "prom/alertmanager" ∷ "grafana/grafana-oss" ∷ "otel/opentelemetry-collector-contrib"
    ∷ "grafana/tempo" ∷ "healthcheck:" ∷ []

abbrev required_assets : List String
required_assets =
    "nginx/default.conf" ∷ "prometheus.yml" ∷ "alerts.yml" ∷ "alertmanager.yml"
    ∷ "rabbitmq/enabled_plugins" ∷ "otel-collector/config.yml" ∷ "tempo/config.yml"
    ∷ "tools/smoke_check.py" ∷ "tools/send_signed_webhook.py" ∷ "tools/redrive_dlq.py"
    ∷ "tools/collect_logs.py" ∷ "docs/hardening.md" ∷ []

abbrev readme_markers : List String
readme_markers =
    "`RabbitMQ` with main queue, retry queue, and dead-letter queue" ∷ "DLQ redrive"
    ∷ "hardening policy check" ∷ "docs/hardening.md" ∷ "compose-smoke" ∷ []

abbrev router_markers : List String
router_markers = "redrive_dead_letter" ∷ "/queue/dlq/redrive" ∷ []

abbrev report_checks : List String
report_checks =
    "application image runs as non-root"
    ∷ "CI includes event workload hardening policy and compose smoke"
    ∷ "RabbitMQ retry/DLQ/redrive assets are present"
    ∷ "compose stack includes edge, async, observability, and health checks"
    ∷ "operator tools and hardening docs are present" ∷ []

infixl 5 ◌>>=◌
abbrev pub ◌>>=◌ {ℓ κ} : {A : Type ℓ} {B : Type κ} → Option A → (A → Option B) → Option B
none >>= f = none
some a >>= f = f a

abbrev pub print_errors : List String → List String
print_errors [] = []
print_errors (error ∷ errors) = append "ERROR: " error ∷ print_errors errors

-- The exit code and what is printed, after the report was written.
unfoldable pub conclude : List String → Run
conclude [] = record {
  report = record { status = "passed"; checks = report_checks; errors = [] };
  printed =
      "Webhook workload hardening checks passed."
      ∷ "Report: artifacts/hardening/hardening-report.json" ∷ [];
  exit_code = 0;
}
conclude (error ∷ errors) = record {
  report = record { status = "failed"; checks = report_checks; errors = error ∷ errors };
  printed = print_errors (error ∷ errors);
  exit_code = 1;
}

module _ (files : Files) where
  unfoldable pub require_markers : List String → String → List String → Option (List String)
  unfolding check_markers
  require_markers errors path markers = do
    text ← files.text path
    some (check_markers text path markers errors)

  -- The loop of `main` over the required assets.
  unfoldable pub check_assets : List String → List String → List String
  check_assets [] errors = errors
  check_assets (required ∷ rest) errors =
      check_assets rest
        (if files.exists required then errors else fail errors (missing_asset required))

  unfoldable pub write_report : List String → Option Run
  unfolding conclude
  write_report errors = if files.writable then some (conclude errors) else none

  -- None where reading or writing a file raises.
  unfoldable pub main : Option Run
  unfolding require_markers check_assets write_report
  main = do
    docker ← require_markers [] "Dockerfile" dockerfile_markers
    ci ← require_markers docker ".github/workflows/ci.yml" ci_markers
    compose ← require_markers ci "docker-compose.yml" compose_markers
    readme ← require_markers (check_assets required_assets compose) "README.md" readme_markers
    errors ← require_markers readme "app/routers/webhooks.py" router_markers
    write_report errors
