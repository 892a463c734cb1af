-- ===== src/System/Actions.antt =====
-- Every operation changes the table by commits of System.Changes.
use webhook_ingestion_servic.Prelude.{ℕ, String, Bool, true, Option, none, some, List, [], ◌∷◌, ℤ}
use webhook_ingestion_servic.Events.{Uuid, Event}
use webhook_ingestion_servic.Runtime.{Runtime, Action, pure, ◌>>=◌}
use webhook_ingestion_servic.Runtime.Rules.{Keeps, Keeps-bind, frame_rules}
use webhook_ingestion_servic.Security.{require_api_key, verify_webhook_signature}
use webhook_ingestion_servic.Queue.Consume.{QueueEnvelope}
use webhook_ingestion_servic.Queue.Consume.Redrive.{redrive_dead_letter-SameRows}
use webhook_ingestion_servic.Worker.{finish, handle_envelope, handle_polled, worker_round}
use webhook_ingestion_servic.Routes.{
  WebhookIn, HttpRequest, find_duplicate, accept_new, answer_duplicate, accept, receive_webhook,
  post_webhook, retry_found, retry_event, redrive_page, redrive_dlq, run_tasks, schedule,
}
use webhook_ingestion_servic.Routes.Intake.{schedule-SameRows}
use webhook_ingestion_servic.System.{Operation, operate}
use webhook_ingestion_servic.System.Evolves.{
  Evolves, Evolves-frame, Evolves-of_SameRows, create_event-Evolves, mark_events_pending-Evolves,
  process_event_by_id-Evolves,
}
use webhook_ingestion_servic.System.Quiet.{
  require_api_key-SameRows, verify_webhook_signature-SameRows, get_event_by_delivery_id-SameRows,
  get_event_by_id-SameRows, dispose_queue-SameRows, health-SameRows, poll_queue_metrics-SameRows,
  dequeue_event-SameRows, finish-SameRows, get_events-SameRows,
  get_events_summary_endpoint-SameRows, get_queue_stats-SameRows,
}

module _ (rt : Runtime) where
  finish-Evolves : (envelope : QueueEnvelope) (b : Bool) → Keeps Evolves (finish rt envelope b)
  finish-Evolves envelope b = Evolves-of_SameRows _ (finish-SameRows rt envelope b)

  handle_envelope-Evolves : (envelope : QueueEnvelope) → Keeps Evolves (handle_envelope rt envelope)
  unfolding handle_envelope
  handle_envelope-Evolves envelope =
      search (frame_rules, Evolves-frame, process_event_by_id-Evolves, finish-Evolves) depth 8

  handle_polled-Evolves : (o : Option QueueEnvelope) → Keeps Evolves (handle_polled rt o)
  unfolding handle_polled
  handle_polled-Evolves none = search (frame_rules, Evolves-frame)
  handle_polled-Evolves (some envelope) =
      search (frame_rules, Evolves-frame, handle_envelope-Evolves) depth 8

  worker_round-Evolves : Keeps Evolves (worker_round rt)
  unfolding worker_round
  worker_round-Evolves =
      search
        (
          frame_rules, Evolves-frame, Evolves-of_SameRows, dequeue_event-SameRows,
          handle_polled-Evolves,
        )
        depth 8

  require_api_key-Evolves : (k : Option String) → Keeps Evolves (require_api_key rt k)
  require_api_key-Evolves k = Evolves-of_SameRows _ (require_api_key-SameRows rt k)

  verify_webhook_signature-Evolves :
      (body : List ℕ) (t s : Option String) → Keeps Evolves (verify_webhook_signature rt body t s)
  verify_webhook_signature-Evolves body t s =
      Evolves-of_SameRows _ (verify_webhook_signature-SameRows rt body t s)

  schedule-Evolves : (id : Uuid) → Keeps Evolves (schedule rt id)
  schedule-Evolves id = Evolves-of_SameRows _ (schedule-SameRows rt id)

  find_duplicate-Evolves : (d : Option String) → Keeps Evolves (find_duplicate rt d)
  unfolding find_duplicate
  find_duplicate-Evolves none = search (frame_rules, Evolves-frame)
  find_duplicate-Evolves (some d) =
      search (frame_rules, Evolves-frame, Evolves-of_SameRows, get_event_by_delivery_id-SameRows)
        depth 8

  accept_new-Evolves :
      (d : WebhookIn) (request : HttpRequest) (delivery_id : Option String)
      → Keeps Evolves (accept_new rt d request delivery_id)
  unfolding accept_new
  accept_new-Evolves d request delivery_id =
      search (frame_rules, Evolves-frame, create_event-Evolves, schedule-Evolves) depth 10

  accept-Evolves :
      (d : WebhookIn) (request : HttpRequest) (delivery_id : Option String) (o : Option Event)
      → Keeps Evolves (accept rt d request delivery_id o)
  unfolding accept answer_duplicate
  accept-Evolves d request delivery_id none = accept_new-Evolves d request delivery_id
  accept-Evolves d request delivery_id (some e) = search (frame_rules, Evolves-frame) depth 8

  pub receive_webhook-Evolves :
      (d : WebhookIn) (request : HttpRequest) → Keeps Evolves (receive_webhook rt d request)
  unfolding receive_webhook
  receive_webhook-Evolves d request =
      search
        (
          frame_rules, Evolves-frame, verify_webhook_signature-Evolves, find_duplicate-Evolves,
          accept-Evolves,
        )
        depth 10

  post_webhook-Evolves :
      (d : WebhookIn) (request : HttpRequest) → Keeps Evolves (post_webhook rt d request)
  unfolding post_webhook
  post_webhook-Evolves d request =
      search (frame_rules, Evolves-frame, require_api_key-Evolves, receive_webhook-Evolves) depth 10

  retry_found-Evolves : (o : Option Event) → Keeps Evolves (retry_found rt o)
  unfolding retry_found
  retry_found-Evolves none = search (frame_rules, Evolves-frame)
  retry_found-Evolves (some e) = search (frame_rules, Evolves-frame, schedule-Evolves) depth 8

  retry_event-Evolves :
      (request : HttpRequest) (i : Uuid) → Keeps Evolves (retry_event rt request i)
  unfolding retry_event
  retry_event-Evolves request i =
      search
        (
          frame_rules, Evolves-frame, require_api_key-Evolves, Evolves-of_SameRows,
          get_event_by_id-SameRows, retry_found-Evolves,
        )
        depth 10

  redrive_page-Evolves : (o : Option ℕ) → Keeps Evolves (redrive_page rt o)
  unfolding redrive_page
  redrive_page-Evolves none = search (frame_rules, Evolves-frame)
  redrive_page-Evolves (some limit) =
      search
        (
          frame_rules, Evolves-frame, mark_events_pending-Evolves, Evolves-of_SameRows,
          redrive_dead_letter-SameRows,
        )
        depth 10

  redrive_dlq-Evolves :
      (request : HttpRequest) (limit : ℤ) → Keeps Evolves (redrive_dlq rt request limit)
  unfolding redrive_dlq
  redrive_dlq-Evolves request limit =
      search (frame_rules, Evolves-frame, require_api_key-Evolves, redrive_page-Evolves) depth 8

  run_tasks-Evolves : (ids : List Uuid) → Keeps Evolves (run_tasks rt ids)
  unfolding run_tasks
  run_tasks-Evolves [] = search (frame_rules, Evolves-frame)
  run_tasks-Evolves (id ∷ ids) =
      Keeps-bind Evolves-frame _ _ (process_event_by_id-Evolves rt id true)
        (λ _. run_tasks-Evolves ids)

  run_round-Evolves :
      {A : Type 0} (m : Action A)
      → Keeps {0} Evolves m
      → Keeps {0} Evolves {A = Unit {0}} (m >>= λ _. pure tt)
  run_round-Evolves m k = search (frame_rules, Evolves-frame, k) depth 8

  -- Whatever an operation does, and whether it returns or raises, it changes the table only by
  -- inserting fresh rows, writing rows after an attempt on them, and opening rows again.
  pub operate-Evolves : (o : Operation) → Keeps Evolves (operate rt o)
  unfolding operate
  operate-Evolves (Operation.post_webhook d request) =
      run_round-Evolves _ (post_webhook-Evolves d request)
  operate-Evolves (Operation.get_events request limit offset source) =
      run_round-Evolves _
        (Evolves-of_SameRows _ (get_events-SameRows rt request limit offset source))
  operate-Evolves (Operation.get_events_summary request) =
      run_round-Evolves _ (Evolves-of_SameRows _ (get_events_summary_endpoint-SameRows rt request))
  operate-Evolves (Operation.get_queue_stats request) =
      run_round-Evolves _ (Evolves-of_SameRows _ (get_queue_stats-SameRows rt request))
  operate-Evolves (Operation.retry_event request i) =
      run_round-Evolves _ (retry_event-Evolves request i)
  operate-Evolves (Operation.redrive_dlq request limit) =
      run_round-Evolves _ (redrive_dlq-Evolves request limit)
  operate-Evolves (Operation.run_tasks ids) = run_tasks-Evolves ids
  operate-Evolves Operation.worker_round = worker_round-Evolves
  operate-Evolves Operation.health =
      run_round-Evolves _ (Evolves-of_SameRows _ (health-SameRows rt))
  operate-Evolves Operation.poll_queue_metrics =
      Evolves-of_SameRows _ (poll_queue_metrics-SameRows rt)
  operate-Evolves Operation.dispose_queue = Evolves-of_SameRows _ (dispose_queue-SameRows rt)
