-- ===== src/Routes/Publishing.antt =====
-- What `receive_webhook` of app/routers/webhooks.py tells RabbitMQ.
use webhook_ingestion_servic.Prelude.{◌≡◌, refl, String, Option, none, some, pos, List, [], ◌∷◌}
use webhook_ingestion_servic.Events.{Uuid, Event}
use webhook_ingestion_servic.Runtime.{
  Runtime, World, Outcome, ok, raise, try_except, except_unavailable, queue_unavailable, http,
  throw,
}
use webhook_ingestion_servic.Runtime.Rules.{Keeps, SameLog, Entry, sent, log, log_rules}
use webhook_ingestion_servic.Queue.Payload.{queue_payload}
use webhook_ingestion_servic.Queue.Topology.{is_queue_enabled, publish_to_rabbitmq}
use webhook_ingestion_servic.Queue.Consume.{send_event, enqueue_event}
use webhook_ingestion_servic.Queue.Consume.Reroute.{Tells, publish_to_rabbitmq-Tells}
use webhook_ingestion_servic.Crud.{one_or_none, get_event_by_delivery_id}
use webhook_ingestion_servic.Crud.Insert.{create_event-SameLog}
use webhook_ingestion_servic.Security.Signature.{verify_webhook_signature_effect}
use webhook_ingestion_servic.Routes.{
  WebhookIn, HttpRequest, WebhookAccepted, schedule, find_duplicate, receive_webhook,
}
use webhook_ingestion_servic.Routes.Accounts.{
  Accounts, Adds, receive_webhook-Accounts, verified_obs,
}

module _ (rt : Runtime) where
  -- The message of the first attempt.
  abbrev pub first_message : Uuid → Entry
  first_message id = sent rt.settings.event_queue_name (queue_payload rt id (pos 1))

  -- An acceptance has published the first message of its event; nothing else was told.
  abbrev pub Publishes : World → Outcome WebhookAccepted × World → Type 0
  Publishes = Accounts (λ w. log w.history) (λ i l. first_message i ∷ l)

  module _ (on : rt.settings.task_queue_backend ≡ "rabbitmq") where
    send_event-rabbitmq :
        (id : Uuid)
        → send_event rt id (pos 1) ≡ publish_to_rabbitmq rt id rt.settings.event_queue_name (pos 1)
    unfolding send_event
    send_event-rabbitmq id = simp on

    schedule-rabbitmq :
        (id : Uuid)
        → schedule rt id
          ≡ except_unavailable
              (enqueue_event rt id (pos 1))
              (λ e. throw (http 503 "Queue unavailable"))
    unfolding schedule is_queue_enabled
    schedule-rabbitmq id = simp on

    send_event-Tells :
        (id : Uuid) (w : World) → Tells (first_message id) w (send_event rt id (pos 1) w)
    send_event-Tells id w =
        rw (send_event-rabbitmq id)
          (publish_to_rabbitmq-Tells rt id rt.settings.event_queue_name (pos 1) w)

    -- The two handlers around the sending only change the exception.
    handled :
        (e : Entry) (w : World) (p : Outcome (Unit {0}) × World)
        → Tells e w p
        → Tells e w (
            except_unavailable
              (try_except (λ _. p) (λ x. throw (queue_unavailable "Failed to enqueue event")))
              (λ x. throw (http 503 "Queue unavailable"))
              w)
    handled e w (ok done, v) h = h
    handled e w (raise x, v) h = h

    schedule-Tells : (id : Uuid) (w : World) → Tells (first_message id) w (schedule rt id w)
    unfolding enqueue_event
    schedule-Tells id w =
        rw (schedule-rabbitmq id)
          (handled (first_message id) w (send_event rt id (pos 1) w) (send_event-Tells id w))

    schedule-Adds :
        (i : Uuid) (w : World)
        → Adds (λ v. log v.history) (λ j l. first_message j ∷ l) i w (schedule rt i w)
    schedule-Adds i w = of_Tells (schedule rt i w) (schedule-Tells i w)
      where
        of_Tells :
            (p : Outcome (Unit {0}) × World)
            → Tells (first_message i) w p
            → Adds (λ v. log v.history) (λ j l. first_message j ∷ l) i w p
        of_Tells (ok done, v) h = h
        of_Tells (raise x, v) h = h

    one_or_none-SameLog : (l : List Event) → Keeps SameLog (one_or_none l)
    unfolding one_or_none
    one_or_none-SameLog [] = search log_rules
    one_or_none-SameLog (e ∷ []) = search log_rules
    one_or_none-SameLog (e ∷ f ∷ l) = search log_rules

    find_duplicate-SameLog : (o : Option String) → Keeps SameLog (find_duplicate rt o)
    unfolding find_duplicate get_event_by_delivery_id
    find_duplicate-SameLog none = search log_rules
    find_duplicate-SameLog (some s) = search (log_rules, one_or_none-SameLog) depth 10

    -- Whatever the broker and the database do, on RabbitMQ: a request that is answered as accepted has
    -- published one message, the first attempt of its event, to the main queue; one that is answered as
    -- a duplicate, and one that raises, has published nothing.
    pub receive_webhook-Publishes :
        (d : WebhookIn) (request : HttpRequest) (w : World)
        → Publishes w (receive_webhook rt d request w)
    receive_webhook-Publishes d request w =
        let timestamp = request.header rt.settings.webhook_timestamp_header in
        let signature = request.header rt.settings.webhook_signature_header in
        receive_webhook-Accounts (λ v. log v.history) (λ i l. first_message i ∷ l) rt d request
          (λ u f. refl) schedule-Adds w
          (λ u.
            verified_obs (λ v. log v.history) (λ i l. first_message i ∷ l) rt u _ (λ f. refl)
              (verify_webhook_signature_effect rt request.body timestamp signature u))
          (λ o u. ((find_duplicate-SameLog o).at u).log_eq)
          (λ o u.
            ((create_event-SameLog rt o request.request_id d.source d.event_type d.payload).at
              u).log_eq)
