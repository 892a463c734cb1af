-- ===== src/Routes.antt =====
-- app/routers/webhooks.py with app/schemas.py: the endpoints. A request has passed the framework's
-- JSON parsing; what is left of its validation is the declared bounds.
pub mod Intake
pub mod Accounts
pub mod Publishing
pub mod Inline
pub mod Redelivery
pub mod Bounds
pub mod Operator
use Prim.Native.String.{count}
use webhook_ingestion_servic.Prelude.{
  ℕ, zero, suc, String, Bool, true, false, not, ◌&&◌, Option, none, some, List, [], ◌∷◌, ◌++◌, ℤ,
  pos, negsuc, length, leb, str_eq, if◌then◌else◌,
}
use webhook_ingestion_servic.Json.{Fields}
use webhook_ingestion_servic.Settings.{Settings}
use webhook_ingestion_servic.Events.{Uuid, processed, same_status, Event}
use webhook_ingestion_servic.Metrics.{Series, record_duplicate, record_webhook_intake}
use webhook_ingestion_servic.Runtime.{
  Runtime, Action, Bytes, http, pure, throw, gets, modify, record_metric, except_unavailable, ◌>>=◌,
  ◌>>◌,
}
use webhook_ingestion_servic.Security.{require_api_key, verify_webhook_signature}
use webhook_ingestion_servic.Crud
use webhook_ingestion_servic.Crud.{EventsSummary}
use webhook_ingestion_servic.Queue.Topology.{backend_is, is_queue_enabled}
use webhook_ingestion_servic.Queue.Consume.{enqueue_event, redrive_dead_letter}
use webhook_ingestion_servic.Queue.Depth.{QueueSnapshot, get_queue_snapshot}
use webhook_ingestion_servic.Processor.{process_event_by_id}

pub record WebhookIn : Type 0 where
  pub source : String
  pub event_type : String
  pub payload : Fields

-- The headers of a request, by name, and the request id that the middleware has set.
pub record HttpRequest : Type 0 where
  pub header : String → Option String
  pub body : Bytes
  pub request_id : Option String

pub data Acceptance : Type 0 where
  accepted duplicate : Acceptance

pub record WebhookAccepted : Type 0 where
  pub status : Acceptance
  pub event_id : Uuid
  pub delivery_id : Option String

pub record EventsListOut : Type 0 where
  pub items : List Event
  pub limit : ℕ
  pub offset : ℕ

pub record EventsSummaryOut : Type 0 where
  pub summary : EventsSummary
  pub queue_depth : Option ℕ
  pub retry_depth : Option ℕ
  pub dead_letter_depth : Option ℕ

pub record QueueStatsOut : Type 0 where
  pub backend : String
  pub enabled : Bool
  pub queue_name : Option String
  pub depth : Option ℕ
  pub retry_queue_name : Option String
  pub retry_depth : Option ℕ
  pub dead_letter_queue_name : Option String
  pub dead_letter_depth : Option ℕ

pub record DlqRedriveOut : Type 0 where
  pub redriven_count : ℕ
  pub event_ids : List Uuid

-- `Field(min_length=1, max_length=128)`
unfoldable pub in_bounds : String → Bool
in_bounds s = leb 1 (count s) && leb (count s) 128

unfoldable pub is_valid_webhook : WebhookIn → Bool
unfolding in_bounds
is_valid_webhook d = in_bounds d.source && in_bounds d.event_type

-- `Query(ge=1, le=100)` and `Query(ge=0)`: the number, if it is in range.
unfoldable pub limit_query : ℤ → Option ℕ
limit_query (pos n) = if leb 1 n && leb n 100 then some n else none
limit_query (negsuc n) = none

unfoldable pub offset_query : ℤ → Option ℕ
offset_query (pos n) = some n
offset_query (negsuc n) = none

unfoldable pub source_query : Option String → Bool
unfolding in_bounds
source_query none = true
source_query (some s) = in_bounds s

abbrev unprocessable : {A : Type 0} → Action A
unprocessable = throw (http 422 "Unprocessable Entity")

abbrev unavailable : {A : Type 0} → Action A
unavailable = throw (http 503 "Queue unavailable")

module _ (rt : Runtime) where
  -- Enqueue, or add a background task where the queue is off; shared by `receive_webhook` and
  -- `retry_event`.
  unfoldable pub schedule : Uuid → Action (Unit {0})
  unfolding is_queue_enabled
  schedule id =
      if is_queue_enabled rt
      then except_unavailable (enqueue_event rt id (pos 1)) (λ e. unavailable)
      else modify (λ w. record w { background = w.background ++ (id ∷ []) })

  -- The existing event of a delivery, if the request names one.
  unfoldable pub find_duplicate : Option String → Action (Option Event)
  find_duplicate none = pure none
  find_duplicate (some d) = if str_eq d "" then pure none else Crud.get_event_by_delivery_id rt d

  unfoldable pub accept_new : WebhookIn → HttpRequest → Option String → Action WebhookAccepted
  unfolding schedule
  accept_new d request delivery_id = do
    event ← Crud.create_event rt delivery_id request.request_id d.source d.event_type d.payload
    schedule event.id
    record_metric (record_webhook_intake d.source "accepted")
    pure (record { status = accepted; event_id = event.id; delivery_id = event.delivery_id })

  unfoldable pub answer_duplicate : WebhookIn → Event → Action WebhookAccepted
  answer_duplicate d existing = do
    record_metric record_duplicate
    record_metric (record_webhook_intake d.source "duplicate")
    pure (record { status = duplicate; event_id = existing.id; delivery_id = existing.delivery_id })

  unfoldable pub accept :
      WebhookIn → HttpRequest → Option String → Option Event → Action WebhookAccepted
  unfolding accept_new answer_duplicate
  accept d request delivery_id none = accept_new d request delivery_id
  accept d request delivery_id (some existing) = answer_duplicate d existing

  unfoldable pub receive_webhook : WebhookIn → HttpRequest → Action WebhookAccepted
  unfolding accept find_duplicate
  receive_webhook d request = do
    let delivery_id = request.header rt.settings.webhook_id_header
    let timestamp = request.header rt.settings.webhook_timestamp_header
    let signature = request.header rt.settings.webhook_signature_header
    verify_webhook_signature rt request.body timestamp signature
    existing ← find_duplicate delivery_id
    accept d request delivery_id existing

  -- POST /webhook: the API key is checked before the body's bounds.
  unfoldable pub post_webhook : WebhookIn → HttpRequest → Action WebhookAccepted
  post_webhook d request = do
    require_api_key rt (request.header "X-API-KEY")
    if is_valid_webhook d then receive_webhook d request else unprocessable

  unfoldable pub list_page : Option String → Option ℕ → Option ℕ → Action EventsListOut
  list_page source (some limit) (some offset) =
      if source_query source
      then (do
        items ← Crud.list_events rt limit offset source
        pure (record { items = items; limit = limit; offset = offset }))
      else unprocessable
  list_page source none offset = unprocessable
  list_page source (some limit) none = unprocessable

  -- GET /events
  unfoldable pub get_events : HttpRequest → ℤ → ℤ → Option String → Action EventsListOut
  unfolding list_page
  get_events request limit offset source = do
    require_api_key rt (request.header "X-API-KEY")
    list_page source (limit_query limit) (offset_query offset)

  -- `_get_queue_snapshot_or_raise`
  unfoldable pub get_queue_snapshot_or_raise : Action QueueSnapshot
  get_queue_snapshot_or_raise = except_unavailable (get_queue_snapshot rt) (λ e. unavailable)

  -- `_get_queue_depth_or_none`
  unfoldable pub get_queue_depth_or_none : Action (Option ℕ)
  get_queue_depth_or_none =
      except_unavailable (do snapshot ← get_queue_snapshot rt; pure snapshot.main_depth)
        (λ e. unavailable)

  -- GET /events/summary
  unfoldable pub get_events_summary : HttpRequest → Action EventsSummaryOut
  get_events_summary request = do
    require_api_key rt (request.header "X-API-KEY")
    summary ← Crud.get_events_summary rt
    snapshot ← get_queue_snapshot_or_raise
    pure (record {
      summary = summary;
      queue_depth = snapshot.main_depth;
      retry_depth = snapshot.retry_depth;
      dead_letter_depth = snapshot.dead_letter_depth;
    })

  -- GET /queue/stats
  unfoldable pub get_queue_stats : HttpRequest → Action QueueStatsOut
  get_queue_stats request = do
    require_api_key rt (request.header "X-API-KEY")
    snapshot ← get_queue_snapshot_or_raise
    let on_rabbitmq = backend_is rt "rabbitmq"
    pure (record {
      backend = rt.settings.task_queue_backend;
      enabled = is_queue_enabled rt;
      queue_name = if is_queue_enabled rt then some rt.settings.event_queue_name else none;
      depth = snapshot.main_depth;
      retry_queue_name = if on_rabbitmq then some rt.settings.retry_queue_name else none;
      retry_depth = snapshot.retry_depth;
      dead_letter_queue_name =
          if on_rabbitmq then some rt.settings.dead_letter_queue_name else none;
      dead_letter_depth = snapshot.dead_letter_depth;
    })

  unfoldable pub retry_found : Option Event → Action Uuid
  unfolding schedule
  retry_found none = throw (http 404 "Event not found")
  retry_found (some event) =
      if same_status event.processing_status processed
      then throw (http 409 "Processed event cannot be retried")
      else do schedule event.id; pure event.id

  -- POST /events/{event_id}/retry
  unfoldable pub retry_event : HttpRequest → Uuid → Action Uuid
  unfolding retry_found
  retry_event request event_id = do
    require_api_key rt (request.header "X-API-KEY")
    event ← Crud.get_event_by_id rt event_id
    retry_found event

  unfoldable pub redrive_page : Option ℕ → Action DlqRedriveOut
  redrive_page none = unprocessable
  redrive_page (some limit) = do
    redriven ← redrive_dead_letter rt limit
    Crud.mark_events_pending rt redriven
    pure (record { redriven_count = length redriven; event_ids = redriven })

  -- POST /queue/dlq/redrive
  unfoldable pub redrive_dlq : HttpRequest → ℤ → Action DlqRedriveOut
  unfolding redrive_page
  redrive_dlq request limit = do
    require_api_key rt (request.header "X-API-KEY")
    redrive_page (limit_query limit)

  -- The tasks `process_event_by_id(id, final_attempt=True)` that a request has left behind.
  unfoldable pub run_tasks : List Uuid → Action (Unit {0})
  run_tasks [] = pure tt
  run_tasks (id ∷ ids) = do process_event_by_id rt id true; run_tasks ids
