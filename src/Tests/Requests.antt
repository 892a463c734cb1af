-- ===== src/Tests/Requests.antt =====
-- The theorems on signatures and endpoints (app/security.py, app/routers/webhooks.py), each applied to
-- a sample request.
use webhook_ingestion_servic.Prelude.{
  ◌≡◌, ◌≢◌, String, abs, ◌-ℤ◌, ◌≤ℤ◌, int_laws, ◌++◌, select, refl, ◌↔◌, ◌⊎◌, true, none, some, [],
  ◌∷◌, pos, eq_iff, arith,
}
use webhook_ingestion_servic.Events.{Event, pending}
use webhook_ingestion_servic.Runtime.{World, ok, raise, http, perform}
use webhook_ingestion_servic.Security.{
  verify_webhook_signature, require_api_key, build_signature, is_ascii, check_headers, check_window,
  check_digest, outside_window, signed_payload, compare_digest,
}
use webhook_ingestion_servic.Security.Signature.{
  IsGenuine, Refuses, verify_webhook_signature_iff, verify-build_signature,
  verify_webhook_signature_effect,
}
use webhook_ingestion_servic.Security.ApiKey.{HasKey, require_api_key_iff}
use webhook_ingestion_servic.Crud.{
  violates, create_event, list_events, get_event_by_delivery_id, one_or_none, insert_event,
}
use webhook_ingestion_servic.Routes.{
  WebhookAccepted, accepted, EventsListOut, receive_webhook, get_events, retry_event, redrive_dlq,
  find_duplicate, accept, accept_new, answer_duplicate, schedule, list_page, limit_query,
  offset_query, source_query,
}
use webhook_ingestion_servic.Routes.Intake.{Receives, receive_webhook-Receives}
use webhook_ingestion_servic.Routes.Redelivery.{
  IsServed, IgnoresDuplicate, receive_webhook_unavailable_then_duplicate,
}
use webhook_ingestion_servic.System.{operate, run_tasks, here, next, acts}
use webhook_ingestion_servic.System.Idempotent.{receive_webhook-IsIdempotent}
use webhook_ingestion_servic.Routes.Bounds.{IsPage, get_events-IsPage}
use webhook_ingestion_servic.Routes.Operator.{
  Retries, retry_event-Retries, Redrives, redrive_dlq-Redrives,
}
use webhook_ingestion_servic.Sample.{
  sample_settings, sample_event, sample_runtime, broken_runtime, sample_webhook, sample_request,
  stocked, empty,
}
use webhook_ingestion_servic.Sample.Order.{newest_first-IsOrderBy}
use webhook_ingestion_servic.Queue.Topology.{
  is_queue_enabled, publish_to_rabbitmq, ensure_rabbitmq_topology, build_topology,
  open_rabbitmq_connection, open_rabbitmq_channel, declare_topology,
}
use webhook_ingestion_servic.Queue.Consume.{enqueue_event, send_event}

secret_nonempty : sample_settings.webhook_secret ≢ ""
secret_nonempty e = ground (arith, eq_iff "secret" "")

stamp_nonempty : ◌≢◌ {A = String} "1000" ""
stamp_nonempty e = ground (arith, eq_iff "1000" "")

digest_nonempty : ◌≢◌ {A = String} "5f" ""
digest_nonempty e = ground (arith, eq_iff "5f" "")

delivery_nonempty : ◌≢◌ {A = String} "d-1" ""
delivery_nonempty e = ground (arith, eq_iff "d-1" "")

sample_window : abs (pos 1000 -ℤ pos 1000) ≤ℤ sample_settings.webhook_timestamp_tolerance_seconds
unfolding ◌-ℤ◌
sample_window = omega int_laws

verify_webhook_signature_iff_example :
    ((verify_webhook_signature sample_runtime (1 ∷ []) (some "1000") (some "5f") empty).0 ≡ ok tt)
    ↔ IsGenuine sample_runtime (1 ∷ []) (some "1000") (some "5f") empty
verify_webhook_signature_iff_example =
    verify_webhook_signature_iff sample_runtime (1 ∷ []) (some "1000") (some "5f") empty
      secret_nonempty

sample_signed :
    (build_signature sample_runtime (λ n. "1000") "secret" (1 ∷ []) (pos 1000) empty).0 ≡ ok "5f"
unfolding build_signature signed_payload
sample_signed = refl

sample_digest : is_ascii "5f" ≡ true
unfolding is_ascii
sample_digest = refl

verify-build_signature_example :
    verify_webhook_signature sample_runtime (1 ∷ []) (some "1000") (some "5f") stocked
    ≡ (ok tt, stocked)
verify-build_signature_example =
    verify-build_signature sample_runtime (λ n. "1000") (pos 1000) (1 ∷ []) "5f" empty stocked
      stamp_nonempty refl (λ k m. (digest_nonempty, sample_digest)) sample_signed sample_window

verify_webhook_signature_effect_example :
    Refuses sample_runtime empty
      (verify_webhook_signature sample_runtime (1 ∷ []) (some "900") none empty)
verify_webhook_signature_effect_example =
    verify_webhook_signature_effect sample_runtime (1 ∷ []) (some "900") none empty

require_api_key_iff_example :
    ((require_api_key sample_runtime (some "key") empty).0 ≡ ok tt)
    ↔ ((sample_settings.api_key ≡ "") ⊎ HasKey sample_runtime (some "key"))
require_api_key_iff_example = require_api_key_iff sample_runtime (some "key") empty

receive_webhook-Receives_example :
    Receives sample_runtime sample_webhook sample_request "d-1" empty
      (receive_webhook sample_runtime sample_webhook sample_request empty)
receive_webhook-Receives_example =
    receive_webhook-Receives sample_runtime sample_webhook sample_request "d-1" empty refl
      delivery_nonempty tt

abbrev first_answer : WebhookAccepted
first_answer = record { status = accepted; event_id = 1; delivery_id = some "d-1" }

abbrev answered_world : World
answered_world = (receive_webhook sample_runtime sample_webhook sample_request empty).1

first_answered :
    receive_webhook sample_runtime sample_webhook sample_request empty
    ≡ (ok first_answer, answered_world)
unfolding receive_webhook find_duplicate get_event_by_delivery_id one_or_none select accept
    accept_new answer_duplicate create_event insert_event violates schedule enqueue_event send_event
    is_queue_enabled publish_to_rabbitmq ensure_rabbitmq_topology build_topology
    open_rabbitmq_connection open_rabbitmq_channel declare_topology perform verify_webhook_signature
    check_headers check_window check_digest outside_window signed_payload compare_digest is_ascii
    ◌-ℤ◌
first_answered = refl

-- The background task of the event has run before the delivery comes again.
abbrev attempted_world : World
attempted_world = (operate sample_runtime (run_tasks (1 ∷ [])) answered_world).1

repeat_after_answer : IsServed sample_runtime "d-1" sample_request attempted_world
unfolding receive_webhook find_duplicate get_event_by_delivery_id one_or_none select accept
    accept_new answer_duplicate create_event insert_event violates schedule enqueue_event send_event
    is_queue_enabled publish_to_rabbitmq ensure_rabbitmq_topology build_topology
    open_rabbitmq_connection open_rabbitmq_channel declare_topology perform verify_webhook_signature
    check_headers check_window check_digest outside_window signed_payload compare_digest is_ascii
    ◌-ℤ◌
repeat_after_answer = record { named = refl; signed = refl; reads = refl }

receive_webhook-IsIdempotent_example :
    IgnoresDuplicate sample_runtime "d-1" 1 attempted_world
      (receive_webhook sample_runtime sample_webhook sample_request attempted_world)
receive_webhook-IsIdempotent_example =
    receive_webhook-IsIdempotent sample_runtime sample_runtime "d-1" sample_webhook sample_webhook
      sample_request sample_request empty answered_world attempted_world first_answer
      delivery_nonempty tt refl first_answered
      (next here (acts sample_runtime (run_tasks (1 ∷ [])) refl)) repeat_after_answer

abbrev refused_world : World
refused_world = (receive_webhook broken_runtime sample_webhook sample_request empty).1

first_refused :
    receive_webhook broken_runtime sample_webhook sample_request empty
    ≡ (raise (http 503 "Queue unavailable"), refused_world)
unfolding receive_webhook find_duplicate get_event_by_delivery_id one_or_none select accept
    accept_new answer_duplicate create_event insert_event violates schedule enqueue_event send_event
    is_queue_enabled publish_to_rabbitmq ensure_rabbitmq_topology build_topology
    open_rabbitmq_connection open_rabbitmq_channel declare_topology perform verify_webhook_signature
    check_headers check_window check_digest outside_window signed_payload compare_digest is_ascii
    ◌-ℤ◌
first_refused = refl

repeat_after_refusal : IsServed broken_runtime "d-1" sample_request refused_world
unfolding receive_webhook find_duplicate get_event_by_delivery_id one_or_none select accept
    accept_new answer_duplicate create_event insert_event violates schedule enqueue_event send_event
    is_queue_enabled publish_to_rabbitmq ensure_rabbitmq_topology build_topology
    open_rabbitmq_connection open_rabbitmq_channel declare_topology perform verify_webhook_signature
    check_headers check_window check_digest outside_window signed_payload compare_digest is_ascii
    ◌-ℤ◌
repeat_after_refusal = record { named = refl; signed = refl; reads = refl }

receive_webhook_unavailable_then_duplicate_example :
    (e : Event) × (refused_world.events ≡ empty.events ++ (e ∷ []))
    × (e.processing_status ≡ pending)
    × IgnoresDuplicate broken_runtime "d-1" e.id refused_world
        (receive_webhook broken_runtime sample_webhook sample_request refused_world)
receive_webhook_unavailable_then_duplicate_example =
    receive_webhook_unavailable_then_duplicate broken_runtime "d-1" sample_webhook sample_webhook
      sample_request sample_request empty refused_world refused_world "Queue unavailable"
      delivery_nonempty tt refl first_refused refl repeat_after_refusal

abbrev page_world : World
page_world = (get_events sample_runtime sample_request (pos 5) (pos 0) none stocked).1

abbrev sample_page : EventsListOut
sample_page = record { items = sample_event ∷ []; limit = 5; offset = 0 }

page_answered :
    get_events sample_runtime sample_request (pos 5) (pos 0) none stocked
    ≡ (ok sample_page, page_world)
unfolding get_events list_page limit_query offset_query source_query require_api_key compare_digest
    is_ascii list_events perform
page_answered = refl

get_events-IsPage_example :
    IsPage (pos 5) (pos 0) none stocked sample_page × (page_world.events ≡ stocked.events)
get_events-IsPage_example =
    get_events-IsPage sample_runtime newest_first-IsOrderBy sample_request (pos 5) (pos 0) none
      stocked page_world sample_page page_answered

retry_event-Retries_example :
    Retries sample_runtime 1 stocked (retry_event sample_runtime sample_request 1 stocked)
retry_event-Retries_example = retry_event-Retries sample_runtime sample_request 1 stocked

redrive_dlq-Redrives_example :
    Redrives sample_runtime
      (pos 10)
      stocked
      (redrive_dlq sample_runtime sample_request (pos 10) stocked)
redrive_dlq-Redrives_example =
    redrive_dlq-Redrives sample_runtime sample_request (pos 10) stocked refl
