-- ===== src/Worker/Returns.antt =====
-- The parts of a round of the worker of app/worker.py over RabbitMQ, where no external call raises.
use webhook_ingestion_servic.Prelude.{ℕ, ◌≡◌, Bool, true, false, Option, none, some, ℤ}
use webhook_ingestion_servic.Events.{Uuid, Event}
use webhook_ingestion_servic.Runtime.{Runtime, Outcome, ok, raise, Exn, Message}
use webhook_ingestion_servic.Runtime.Calm.{IsCalm, Returns, returns_rules}
use webhook_ingestion_servic.Queue.Consume.{complete_event, complete_message}
use webhook_ingestion_servic.Processor.{
  save_event, record_failure, record_success, settle, process_event, process_found,
  process_event_by_id,
}
use webhook_ingestion_servic.Queue.Topology.{is_queue_enabled}
use webhook_ingestion_servic.Worker.{finish, handle_envelope, worker_rounds, run_worker}
use webhook_ingestion_servic.Worker.Delivery.{from_message, retry_or_dead_letter-rabbitmq}
use webhook_ingestion_servic.Worker.Chain.{reroute-Returns}

module _ (rt : Runtime) (calm : IsCalm rt) where
  save_event-Returns : (e : Event) → Returns (save_event rt e)
  unfolding save_event
  save_event-Returns e = search (returns_rules, calm) depth 8

  record_failure-Returns : (e : Event) (b : Bool) (x : Exn) → Returns (record_failure rt e b x)
  unfolding record_failure
  record_failure-Returns e b x = search (returns_rules, save_event-Returns) depth 8

  record_success-Returns : (e : Event) → Returns (record_success rt e)
  unfolding record_success
  record_success-Returns e = search (returns_rules, save_event-Returns) depth 8

  settle-Returns : (b : Bool) (p : Event × Outcome (Unit {0})) → Returns (settle rt b p)
  unfolding settle
  settle-Returns b (e, raise x) = record_failure-Returns e b x
  settle-Returns b (e, ok done) = search (returns_rules, record_success-Returns) depth 8

  process_found-Returns : (o : Option Event) (b : Bool) → Returns (process_found rt o b)
  unfolding process_found process_event
  process_found-Returns none b = search returns_rules
  process_found-Returns (some e) b = search (returns_rules, settle-Returns) depth 8

  pub process_event_by_id-Returns : (i : Uuid) (b : Bool) → Returns (process_event_by_id rt i b)
  unfolding process_event_by_id
  process_event_by_id-Returns i b = search (returns_rules, calm, process_found-Returns) depth 8

  module _ (on : rt.settings.task_queue_backend ≡ "rabbitmq") where
    finish-Returns :
        (i : Uuid) (a : ℤ) (m : Message) (b : Bool) → Returns (finish rt (from_message i a m) b)
    unfolding finish complete_event complete_message
    finish-Returns i a m true = search (returns_rules, calm) depth 8
    finish-Returns i a m false =
        rw (retry_or_dead_letter-rabbitmq rt i a m on)
          (search (returns_rules, reroute-Returns rt calm on) depth 8)

    pub handle_envelope-Returns :
        (i : Uuid) (a : ℤ) (m : Message) → Returns (handle_envelope rt (from_message i a m))
    unfolding handle_envelope
    handle_envelope-Returns i a m =
        search (returns_rules, process_event_by_id-Returns, finish-Returns i a m) depth 8

pub run_worker-rabbitmq :
    (rt : Runtime)
    → rt.settings.task_queue_backend ≡ "rabbitmq"
    → (rounds : ℕ) → run_worker rt rounds ≡ worker_rounds rt rounds
unfolding run_worker is_queue_enabled
run_worker-rabbitmq rt on rounds = simp on
