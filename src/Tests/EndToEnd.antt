-- ===== src/Tests/EndToEnd.antt =====
-- The theorems on the way of a delivery from the API to the worker (app/routers/webhooks.py,
-- app/worker.py), each applied to the sample request and a broker that keeps messages.
use webhook_ingestion_servic.Prelude.{
  ◌≢◌, ◌≡◌, refl, String, some, [], eq_iff, arith, ◌-ℤ◌, select, false, ◌∷◌,
}
use webhook_ingestion_servic.Json.{get}
use webhook_ingestion_servic.Runtime.{World, ok, perform, Runtime}
use webhook_ingestion_servic.Runtime.Rules.{log}
use webhook_ingestion_servic.Crud.{
  violates, create_event, get_event_by_delivery_id, one_or_none, insert_event,
}
use webhook_ingestion_servic.Queue.Payload.{int_of_json}
use webhook_ingestion_servic.Queue.Topology.{
  is_queue_enabled, publish_to_rabbitmq, ensure_rabbitmq_topology, build_topology,
  open_rabbitmq_connection, open_rabbitmq_channel, declare_topology,
}
use webhook_ingestion_servic.Queue.Consume.{enqueue_event, send_event}
use webhook_ingestion_servic.Security.{
  verify_webhook_signature, is_ascii, check_headers, check_window, check_digest, outside_window,
  signed_payload, compare_digest,
}
use webhook_ingestion_servic.Processor.{failures_json, force_failure}
use webhook_ingestion_servic.Processor.Transient.{HasFailures}
use webhook_ingestion_servic.Worker.{run_worker}
use webhook_ingestion_servic.Worker.Polls.{IsSettled, polls}
use webhook_ingestion_servic.Worker.Broker.{waiting, dead_letters}
use webhook_ingestion_servic.Worker.Settles.{Settles}
use webhook_ingestion_servic.Routes.{
  WebhookAccepted, accepted, receive_webhook, find_duplicate, accept, accept_new, answer_duplicate,
  schedule, run_tasks,
}
use webhook_ingestion_servic.Routes.Publishing.{Publishes, receive_webhook-Publishes}
use webhook_ingestion_servic.Sample.{
  sample_runtime, sample_settings, sample_payload, sample_webhook, sample_request, empty, stocked,
}
use webhook_ingestion_servic.System.Background.{IsDone, accepted-IsDone}
use webhook_ingestion_servic.System.EndToEnd.{accepted-Settles}
use webhook_ingestion_servic.Sample.Broker.{
  broker_runtime, broker_runtime-IsBroker, sample_queues, sample_codecs,
}

receive_webhook-Publishes_example :
    Publishes broker_runtime stocked
      (receive_webhook broker_runtime sample_webhook sample_request stocked)
receive_webhook-Publishes_example =
    receive_webhook-Publishes broker_runtime refl sample_webhook sample_request stocked

abbrev answer : WebhookAccepted
answer = record { status = accepted; event_id = 1; delivery_id = some "d-1" }

abbrev api : World
api = (receive_webhook broker_runtime sample_webhook sample_request empty).1

-- The worker is another process on the same rows and the same broker.
abbrev worker : World
worker = record empty { events = api.events; history = api.history }

answered : receive_webhook broker_runtime sample_webhook sample_request empty ≡ (ok answer, api)
unfolding receive_webhook find_duplicate get_event_by_delivery_id one_or_none select accept
    accept_new answer_duplicate create_event insert_event violates schedule enqueue_event send_event
    is_queue_enabled publish_to_rabbitmq ensure_rabbitmq_topology build_topology
    open_rabbitmq_connection open_rabbitmq_channel declare_topology perform verify_webhook_signature
    check_headers check_window check_digest outside_window signed_payload compare_digest is_ascii
    ◌-ℤ◌
answered = refl

named_delivery : ◌≢◌ {A = String} "d-1" ""
named_delivery e = ground (arith, eq_iff "d-1" "")

nothing_waits : waiting sample_settings (log empty.history) ≡ []
unfolding waiting
nothing_waits = refl

payload_failures : HasFailures broker_runtime sample_payload 1
unfolding failures_json force_failure int_of_json get
payload_failures = record { count = refl; unforced = refl }

worker-IsSettled : IsSettled broker_runtime worker.history
unfolding polls receive_webhook find_duplicate get_event_by_delivery_id one_or_none select accept
    accept_new answer_duplicate create_event insert_event violates schedule enqueue_event send_event
    is_queue_enabled publish_to_rabbitmq ensure_rabbitmq_topology build_topology
    open_rabbitmq_connection open_rabbitmq_channel declare_topology perform verify_webhook_signature
    check_headers check_window check_digest outside_window signed_payload compare_digest is_ascii
    ◌-ℤ◌
worker-IsSettled = record { returned = refl; own = refl }

accepted-Settles_example :
    Settles broker_runtime 1 3 1 1 0
      (dead_letters sample_settings [])
      (run_worker broker_runtime 9 worker)
accepted-Settles_example =
    accepted-Settles broker_runtime refl sample_queues sample_webhook sample_request "d-1" empty api
      worker answer 3 2 1 9 answered refl refl named_delivery tt nothing_waits refl refl
      worker-IsSettled (record { works = λ h c. refl }) broker_runtime-IsBroker sample_codecs refl
      (omega arith) (omega arith) payload_failures

-- The sample on the default backend.
abbrev inline_runtime : Runtime
inline_runtime = record sample_runtime {
  settings = record sample_settings { task_queue_backend = "inline" };
}

abbrev inline_api : World
inline_api = (receive_webhook inline_runtime sample_webhook sample_request empty).1

inline_off : is_queue_enabled inline_runtime ≡ false
unfolding is_queue_enabled
inline_off = refl

inline_answered :
    receive_webhook inline_runtime sample_webhook sample_request empty ≡ (ok answer, inline_api)
unfolding receive_webhook find_duplicate get_event_by_delivery_id one_or_none select accept
    accept_new answer_duplicate create_event insert_event violates schedule is_queue_enabled perform
    verify_webhook_signature check_headers check_window check_digest outside_window signed_payload
    compare_digest is_ascii ◌-ℤ◌
inline_answered = refl

accepted-IsDone_example :
    (inline_api.background ≡ 1 ∷ [])
    × IsDone inline_runtime 1 sample_payload 1
        (run_tasks inline_runtime inline_api.background inline_api)
accepted-IsDone_example =
    accepted-IsDone inline_runtime sample_webhook sample_request "d-1" empty inline_api answer
      inline_off inline_answered refl refl named_delivery tt refl (record { works = λ h c. refl })
