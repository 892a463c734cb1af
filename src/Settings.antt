-- ===== src/Settings.antt =====
-- app/config.py: the settings that the modelled code reads, and their validators.
pub mod Checks
use webhook_ingestion_servic.Prelude.{
  String, Bool, true, ◌||◌, Option, none, some, ℤ, pos, ltb_ℤ, str_eq, if◌then◌else◌,
}

-- A validator that raises ValueError returns none.
pub record Settings : Type 0 where
  pub api_key : String
  pub auto_create_tables : Bool
  pub task_queue_backend : String
  pub event_queue_name : String
  pub retry_queue_name : String
  pub dead_letter_queue_name : String
  pub worker_poll_timeout_seconds : ℤ
  pub rabbitmq_exchange_name : String
  pub rabbitmq_retry_delay_ms : ℤ
  pub rabbitmq_max_delivery_attempts : ℤ
  pub webhook_secret : String
  pub webhook_signature_header : String
  pub webhook_timestamp_header : String
  pub webhook_id_header : String
  pub webhook_timestamp_tolerance_seconds : ℤ
  pub request_id_header : String

-- The field defaults of `Settings`.
abbrev pub default_settings : Settings
default_settings = record {
  api_key = "";
  auto_create_tables = true;
  task_queue_backend = "inline";
  event_queue_name = "webhook-events";
  retry_queue_name = "webhook-events.retry";
  dead_letter_queue_name = "webhook-events.dlq";
  worker_poll_timeout_seconds = pos 5;
  rabbitmq_exchange_name = "webhooks";
  rabbitmq_retry_delay_ms = pos 5000;
  rabbitmq_max_delivery_attempts = pos 3;
  webhook_secret = "";
  webhook_signature_header = "X-Webhook-Signature";
  webhook_timestamp_header = "X-Webhook-Timestamp";
  webhook_id_header = "X-Webhook-ID";
  webhook_timestamp_tolerance_seconds = pos 300;
  request_id_header = "X-Request-ID";
}

-- `validate_task_queue_backend`; `lower` is Python's `str.lower`.
unfoldable pub validate_task_queue_backend : (String → String) → String → Option String
validate_task_queue_backend lower value =
    let normalized = lower value in
    if str_eq normalized "inline" || (str_eq normalized "redis" || str_eq normalized "rabbitmq")
    then some normalized
    else none

unfoldable pub validate_worker_poll_timeout_seconds : ℤ → Option ℤ
validate_worker_poll_timeout_seconds value = if ltb_ℤ value (pos 1) then none else some value

unfoldable pub validate_positive_numbers : ℤ → Option ℤ
validate_positive_numbers value = if ltb_ℤ value (pos 1) then none else some value

-- A validator that raises ends the validation.
infixl 5 ◌>>=◌
abbrev ◌>>=◌ {ℓ κ} : {A : Type ℓ} {B : Type κ} → Option A → (A → Option B) → Option B
none >>= f = none
some a >>= f = f a

-- pydantic runs each validator on its field, and refuses the settings if one raises.
unfoldable pub validate_settings : (String → String) → Settings → Option Settings
unfolding validate_task_queue_backend validate_worker_poll_timeout_seconds validate_positive_numbers
validate_settings lower raw = do
  backend ← validate_task_queue_backend lower raw.task_queue_backend
  poll ← validate_worker_poll_timeout_seconds raw.worker_poll_timeout_seconds
  delay ← validate_positive_numbers raw.rabbitmq_retry_delay_ms
  most ← validate_positive_numbers raw.rabbitmq_max_delivery_attempts
  some (record raw {
    task_queue_backend = backend;
    worker_poll_timeout_seconds = poll;
    rabbitmq_retry_delay_ms = delay;
    rabbitmq_max_delivery_attempts = most;
  })
