-- ===== src/Sample.antt =====
-- A concrete runtime with concrete rows and requests, on which the theorems are applied. The broker,
-- the database and the clock answer the same at every call; the digest is a fixed text.
pub mod Order
pub mod Broker
use webhook_ingestion_servic.Prelude.{
  ℕ, zero, String, Bool, true, false, Option, none, some, List, [], ◌∷◌, ℤ, pos, ◌==◌, str_eq,
  if◌then◌else◌,
}
use webhook_ingestion_servic.Json.{Json, num, text, Fields, end, field, obj}
use webhook_ingestion_servic.Settings.{Settings, default_settings}
use webhook_ingestion_servic.Events.{Event, pending}
use webhook_ingestion_servic.Metrics.{Metrics}
use webhook_ingestion_servic.Runtime.{
  Runtime, World, Message, Step, did, refused, History, Call, publish, ack, Bytes,
}
use webhook_ingestion_servic.Routes.{HttpRequest, WebhookIn}
use webhook_ingestion_servic.Sample.Order.{newest_first}

abbrev pub sample_settings : Settings
sample_settings = record default_settings {
  task_queue_backend = "rabbitmq";
  webhook_secret = "secret";
  api_key = "key";
}

-- The payload asks for one failing attempt.
abbrev pub sample_payload : Fields
sample_payload = field "fail_attempts_remaining" (num (pos 1)) end

abbrev pub sample_event : Event
sample_event = record {
  id = 1;
  delivery_id = some "d-1";
  request_id = some "r-1";
  source = "github";
  event_type = "push";
  payload = sample_payload;
  received_at = 10;
  processing_status = pending;
  processing_attempts = 0;
  processed_at = none;
  error_message = none;
}

abbrev pub sample_metrics : Metrics
sample_metrics = record {
  http_requests_total = [];
  http_request_duration_seconds = [];
  webhook_intake_total = [];
  webhook_signature_failures_total = 0;
  webhook_duplicate_total = 0;
  webhook_processing_total = [];
  webhook_processing_duration_seconds = [];
  webhook_retry_total = 0;
  webhook_redrive_total = 0;
  webhook_queue_depth = [];
  dependency_up = [];
}

-- A process that has made no call, before a table.
abbrev pub world_of : List Event → World
world_of rows = record {
  history = [];
  events = rows;
  redis_client = false;
  rabbitmq_connection = false;
  rabbitmq_channel = false;
  topology_ready = false;
  background = [];
  metrics = sample_metrics;
}

-- A table with the sample's row, and one without rows.
abbrev pub stocked : World
stocked = world_of (sample_event ∷ [])

abbrev pub empty : World
empty = world_of []

abbrev pub sample_message : Message
sample_message = record { body = 1 ∷ []; delivery_tag = 1 }

-- The dead-letter queue holds one message until it is acknowledged.
abbrev waiting : History → Option Message
waiting [] = some sample_message
waiting (did (ack m) ∷ h) = none
waiting (s ∷ h) = waiting h

abbrev sample_json : Json
sample_json = obj (field "event_id" (text "1") (field "attempt" (num (pos 1)) end))

abbrev pub sample_runtime : Runtime
sample_runtime = record {
  settings = sample_settings;
  fails = λ h c. false;
  next_message = λ h queue. waiting h;
  popped = λ h. none;
  list_length = λ h key. 0;
  message_count = λ h queue. 0;
  channel_is_closed = λ h. false;
  ping_reply = λ h. true;
  time = λ h. pos 1000;
  now = λ h. 20;
  uuid4 = λ h. 1;
  order_by_received_at_desc = newest_first;
  hmac_sha256_hex = λ key message. "5f";
  decode_utf8 = λ body. some "message";
  encode_utf8 = λ s. 1 ∷ [];
  int_of_str = λ s. if str_eq s "1000" then some (pos 1000) else none;
  str_of_uuid = λ i. "1";
  uuid_of_str = λ s. if str_eq s "1" then some 1 else none;
  json_dumps = λ j. "message";
  json_loads = λ s. if str_eq s "message" then some sample_json else none;
  describe = λ e. "ValueError";
}

abbrev is_publish : Call → Bool
is_publish (publish key body) = true
is_publish _ = false

-- The same with a broker that takes no message.
abbrev pub broken_runtime : Runtime
broken_runtime = record sample_runtime { fails = λ h c. is_publish c }

-- The same with no broker and no database.
abbrev pub dead_runtime : Runtime
dead_runtime = record sample_runtime { fails = λ h c. true }

-- The same on Redis.
abbrev pub redis_runtime : Runtime
redis_runtime = record sample_runtime {
  settings = record sample_settings { task_queue_backend = "redis" };
}

abbrev pub sample_webhook : WebhookIn
sample_webhook = record { source = "github"; event_type = "push"; payload = sample_payload }

abbrev sample_header : String → Option String
sample_header name =
    if str_eq name "X-Webhook-ID"
    then some "d-1"
    else if str_eq name "X-Webhook-Timestamp"
    then some "1000"
    else if str_eq name "X-Webhook-Signature"
    then some "5f"
    else if str_eq name "X-API-KEY"
    then some "key"
    else none

abbrev pub sample_request : HttpRequest
sample_request = record { header = sample_header; body = 1 ∷ []; request_id = some "r-1" }
