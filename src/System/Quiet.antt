-- ===== src/System/Quiet.antt =====
-- The operations that leave the table alone.
use webhook_ingestion_servic.Prelude.{
  ℕ, String, Bool, true, false, Option, none, some, List, [], ◌∷◌, ℤ, ◌≡◌, ap,
}
use webhook_ingestion_servic.Events.{Uuid, Event}
use webhook_ingestion_servic.Runtime.{Runtime, World, Outcome, ok, raise, http, Message}
use webhook_ingestion_servic.Runtime.Rules.{Keeps, rows_rules, SameRows}
use webhook_ingestion_servic.Security.{require_api_key, compare_digest, verify_webhook_signature}
use webhook_ingestion_servic.Security.Signature.{Refuses, verify_webhook_signature_effect}
use webhook_ingestion_servic.Crud
use webhook_ingestion_servic.Crud.{
  one_or_none, get_event_by_delivery_id, get_event_by_id, list_events,
}
use webhook_ingestion_servic.Queue.Consume.{
  QueueEnvelope, dequeue_redis, open_message, open_next, dequeue_rabbitmq, dequeue_event,
}
use webhook_ingestion_servic.Queue.Payload.{decode_payload}
use webhook_ingestion_servic.Queue.Consume.Frames.{
  complete_event-SameRows, retry_or_dead_letter-SameRows,
}
use webhook_ingestion_servic.Queue.Topology.{
  close_redis, close_rabbitmq_channel, close_rabbitmq_connection, dispose_queue,
}
use webhook_ingestion_servic.Queue.Topology.Frames.{
  ensure_rabbitmq_topology-SameRows, get_queue_client-SameRows,
}
use webhook_ingestion_servic.Queue.Depth.{
  publish_depths, redis_snapshot, rabbitmq_snapshot, get_queue_snapshot, get_queue_depth,
  ping_backend, ping_queue,
}
use webhook_ingestion_servic.Worker.{finish}
use webhook_ingestion_servic.Routes
use webhook_ingestion_servic.Routes.{
  WebhookIn, HttpRequest, find_duplicate, accept_new, answer_duplicate, accept, receive_webhook,
  post_webhook, list_page, get_events, get_queue_snapshot_or_raise, get_queue_stats, retry_found,
  retry_event, redrive_page, redrive_dlq, run_tasks, schedule,
}
use webhook_ingestion_servic.Service.{
  ping_db, read_depth, queue_health, QueueHealth, health_answer, health, poll_queue_metrics,
}

module _ (rt : Runtime) where
  pub require_api_key-SameRows : (k : Option String) → Keeps SameRows (require_api_key rt k)
  unfolding require_api_key compare_digest
  require_api_key-SameRows none = search rows_rules depth 12
  require_api_key-SameRows (some k) = search rows_rules depth 12

  pub Refuses-SameRows :
      (w : World) (p : Outcome (Unit {0}) × World) → Refuses rt w p → p.1.events ≡ w.events
  Refuses-SameRows w (ok done, v) h = ap (λ (x : World). x.events) h
  Refuses-SameRows w (raise (http s d), v) (status, h) = ap (λ (x : World). x.events) h
  Refuses-SameRows w (raise x, v) h = ap (λ (x : World). x.events) h

  pub verify_webhook_signature-SameRows :
      (body : List ℕ) (t s : Option String) → Keeps SameRows (verify_webhook_signature rt body t s)
  verify_webhook_signature-SameRows body t s = record {
    at = λ w. record {
      events = Refuses-SameRows w _ (verify_webhook_signature_effect rt body t s w);
    };
  }

  pub one_or_none-SameRows : (rows : List Event) → Keeps SameRows (one_or_none rows)
  unfolding one_or_none
  one_or_none-SameRows [] = search rows_rules
  one_or_none-SameRows (e ∷ []) = search rows_rules
  one_or_none-SameRows (e ∷ f ∷ rest) = search rows_rules

  pub get_event_by_delivery_id-SameRows :
      (d : String) → Keeps SameRows (get_event_by_delivery_id rt d)
  unfolding get_event_by_delivery_id
  get_event_by_delivery_id-SameRows d = search (rows_rules, one_or_none-SameRows) depth 12

  pub get_event_by_id-SameRows : (i : Uuid) → Keeps SameRows (get_event_by_id rt i)
  unfolding get_event_by_id
  get_event_by_id-SameRows i = search (rows_rules, one_or_none-SameRows) depth 12

  pub list_events-SameRows :
      (limit offset : ℕ) (source : Option String)
      → Keeps SameRows (list_events rt limit offset source)
  unfolding list_events
  list_events-SameRows limit offset source = search rows_rules depth 12

  pub get_events_summary-SameRows : Keeps SameRows (Crud.get_events_summary rt)
  unfolding Crud.get_events_summary
  get_events_summary-SameRows = search rows_rules depth 14

  pub get_queue_snapshot-SameRows : Keeps SameRows (get_queue_snapshot rt)
  unfolding get_queue_snapshot publish_depths redis_snapshot rabbitmq_snapshot
  get_queue_snapshot-SameRows =
      search (rows_rules, ensure_rabbitmq_topology-SameRows, get_queue_client-SameRows) depth 18

  pub dispose_queue-SameRows : Keeps SameRows (dispose_queue rt)
  unfolding dispose_queue close_redis close_rabbitmq_channel close_rabbitmq_connection
  dispose_queue-SameRows = search rows_rules depth 18

  pub ping_queue-SameRows : Keeps SameRows (ping_queue rt)
  unfolding ping_queue ping_backend
  ping_queue-SameRows =
      search (rows_rules, ensure_rabbitmq_topology-SameRows, get_queue_client-SameRows) depth 18

  pub get_queue_depth-SameRows : Keeps SameRows (get_queue_depth rt)
  unfolding get_queue_depth
  get_queue_depth-SameRows = search (rows_rules, get_queue_snapshot-SameRows) depth 12

  pub ping_db-SameRows : Keeps SameRows (ping_db rt)
  unfolding ping_db
  ping_db-SameRows = search rows_rules depth 12

  pub queue_health-SameRows : (b : Bool) → Keeps SameRows (queue_health rt b)
  unfolding queue_health read_depth
  queue_health-SameRows b = search (rows_rules, get_queue_depth-SameRows) depth 12

  pub health_answer-SameRows : (b : Bool) (q : QueueHealth) → Keeps SameRows (health_answer rt b q)
  unfolding health_answer
  health_answer-SameRows b q = search rows_rules depth 12

  pub health-SameRows : Keeps SameRows (health rt)
  unfolding health
  health-SameRows =
      search
        (
          rows_rules, ping_db-SameRows, ping_queue-SameRows, queue_health-SameRows,
          health_answer-SameRows,
        )
        depth 18

  pub poll_queue_metrics-SameRows : Keeps SameRows (poll_queue_metrics rt)
  unfolding poll_queue_metrics
  poll_queue_metrics-SameRows = search (rows_rules, get_queue_snapshot-SameRows) depth 12

  pub open_message-SameRows :
      (m : Message) (r : Outcome (Uuid × ℤ)) → Keeps SameRows (open_message rt m r)
  unfolding open_message
  open_message-SameRows m (ok (i, n)) = search rows_rules
  open_message-SameRows m (raise e) = search rows_rules

  pub open_next-SameRows : (o : Option Message) → Keeps SameRows (open_next rt o)
  unfolding open_next
  open_next-SameRows none = search rows_rules
  open_next-SameRows (some m) = open_message-SameRows m (decode_payload rt m.body)

  pub dequeue_redis-SameRows : Keeps SameRows (dequeue_redis rt)
  unfolding dequeue_redis
  dequeue_redis-SameRows = search (rows_rules, get_queue_client-SameRows) depth 12

  pub dequeue_rabbitmq-SameRows : Keeps SameRows (dequeue_rabbitmq rt)
  unfolding dequeue_rabbitmq
  dequeue_rabbitmq-SameRows =
      search (rows_rules, ensure_rabbitmq_topology-SameRows, open_next-SameRows) depth 14

  pub dequeue_event-SameRows : Keeps SameRows (dequeue_event rt)
  unfolding dequeue_event
  dequeue_event-SameRows =
      search (rows_rules, dequeue_redis-SameRows, dequeue_rabbitmq-SameRows) depth 12

  pub finish-SameRows :
      (envelope : QueueEnvelope) (b : Bool) → Keeps SameRows (finish rt envelope b)
  unfolding finish
  finish-SameRows envelope true = search (rows_rules, complete_event-SameRows) depth 8
  finish-SameRows envelope false = search (rows_rules, retry_or_dead_letter-SameRows) depth 8

  pub list_page-SameRows :
      (source : Option String) (limit offset : Option ℕ)
      → Keeps SameRows (list_page rt source limit offset)
  unfolding list_page
  list_page-SameRows source (some limit) (some offset) =
      search (rows_rules, list_events-SameRows) depth 10
  list_page-SameRows source none offset = search rows_rules
  list_page-SameRows source (some limit) none = search rows_rules

  pub get_events-SameRows :
      (request : HttpRequest) (limit offset : ℤ) (source : Option String)
      → Keeps SameRows (get_events rt request limit offset source)
  unfolding get_events
  get_events-SameRows request limit offset source =
      search (rows_rules, require_api_key-SameRows, list_page-SameRows) depth 8

  pub get_queue_snapshot_or_raise-SameRows : Keeps SameRows (get_queue_snapshot_or_raise rt)
  unfolding get_queue_snapshot_or_raise
  get_queue_snapshot_or_raise-SameRows = search (rows_rules, get_queue_snapshot-SameRows) depth 8

  pub get_events_summary_endpoint-SameRows :
      (request : HttpRequest) → Keeps SameRows (Routes.get_events_summary rt request)
  unfolding Routes.get_events_summary
  get_events_summary_endpoint-SameRows request =
      search
        (
          rows_rules, require_api_key-SameRows, get_events_summary-SameRows,
          get_queue_snapshot_or_raise-SameRows,
        )
        depth 10

  pub get_queue_stats-SameRows :
      (request : HttpRequest) → Keeps SameRows (get_queue_stats rt request)
  unfolding get_queue_stats
  get_queue_stats-SameRows request =
      search (rows_rules, require_api_key-SameRows, get_queue_snapshot_or_raise-SameRows) depth 10
