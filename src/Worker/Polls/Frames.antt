-- ===== src/Worker/Polls/Frames.antt =====
-- The connections of app/queue.py and the attempts of app/services/processor.py get no message.
use webhook_ingestion_servic.Prelude.{◌≡◌, String, Bool, true, false, Option, none, some, ℤ}
use webhook_ingestion_servic.Events.{Uuid, Event}
use webhook_ingestion_servic.Runtime.{Runtime, Message, Exn, Outcome, ok, raise}
use webhook_ingestion_servic.Runtime.Rules.{Keeps}
use webhook_ingestion_servic.Queue.Topology.{
  open_rabbitmq_connection, open_rabbitmq_channel, declare_topology, build_topology,
  ensure_rabbitmq_topology, publish_to_rabbitmq,
}
use webhook_ingestion_servic.Queue.Consume.{reroute, complete_event, complete_message}
use webhook_ingestion_servic.Processor.{
  save_event, record_failure, record_success, settle, process_event, process_found,
  process_event_by_id,
}
use webhook_ingestion_servic.Worker.{finish, handle_envelope}
use webhook_ingestion_servic.Worker.Delivery.{from_message, retry_or_dead_letter-rabbitmq}
use webhook_ingestion_servic.Worker.Polls.{SamePolls, GetsNone, polls_rules, gets_rules, gets_none}

module _ (rt : Runtime) where
  pub open_rabbitmq_connection-SamePolls : Keeps (SamePolls rt) (open_rabbitmq_connection rt)
  unfolding open_rabbitmq_connection
  open_rabbitmq_connection-SamePolls = search polls_rules depth 14

  pub open_rabbitmq_channel-SamePolls : Keeps (SamePolls rt) (open_rabbitmq_channel rt)
  unfolding open_rabbitmq_channel
  open_rabbitmq_channel-SamePolls = search polls_rules depth 14

  pub declare_topology-SamePolls : Keeps (SamePolls rt) (declare_topology rt)
  unfolding declare_topology
  declare_topology-SamePolls = search polls_rules depth 14

  pub build_topology-SamePolls : Keeps (SamePolls rt) (build_topology rt)
  unfolding build_topology
  build_topology-SamePolls =
      search
        (
          polls_rules, open_rabbitmq_connection-SamePolls, open_rabbitmq_channel-SamePolls,
          declare_topology-SamePolls,
        )
        depth 14

  pub ensure_rabbitmq_topology-SamePolls : Keeps (SamePolls rt) (ensure_rabbitmq_topology rt)
  unfolding ensure_rabbitmq_topology
  ensure_rabbitmq_topology-SamePolls = search (polls_rules, build_topology-SamePolls) depth 14

  ensure_rabbitmq_topology-GetsNone : Keeps (GetsNone rt) (ensure_rabbitmq_topology rt)
  ensure_rabbitmq_topology-GetsNone = record {
    at = λ w. gets_none rt (ensure_rabbitmq_topology-SamePolls.at w).polls_eq;
  }

  pub publish_to_rabbitmq-GetsNone :
      (i : Uuid) (key : String) (n : ℤ) → Keeps (GetsNone rt) (publish_to_rabbitmq rt i key n)
  unfolding publish_to_rabbitmq
  publish_to_rabbitmq-GetsNone i key n =
      search (gets_rules, ensure_rabbitmq_topology-GetsNone) depth 14

  pub save_event-GetsNone : (e : Event) → Keeps (GetsNone rt) (save_event rt e)
  unfolding save_event
  save_event-GetsNone e = search gets_rules depth 14

  pub record_failure-GetsNone :
      (e : Event) (b : Bool) (x : Exn) → Keeps (GetsNone rt) (record_failure rt e b x)
  unfolding record_failure
  record_failure-GetsNone e b x = search (gets_rules, save_event-GetsNone) depth 14

  pub record_success-GetsNone : (e : Event) → Keeps (GetsNone rt) (record_success rt e)
  unfolding record_success
  record_success-GetsNone e = search (gets_rules, save_event-GetsNone) depth 14

  settle-GetsNone :
      (b : Bool) (p : Event × Outcome (Unit {0})) → Keeps (GetsNone rt) (settle rt b p)
  unfolding settle
  settle-GetsNone b (e, raise x) = record_failure-GetsNone e b x
  settle-GetsNone b (e, ok done) =
      search (gets_rules, record_success-GetsNone, record_failure-GetsNone) depth 8

  pub process_event-GetsNone : (e : Event) (b : Bool) → Keeps (GetsNone rt) (process_event rt e b)
  unfolding process_event
  process_event-GetsNone e b = search (gets_rules, settle-GetsNone) depth 14

  process_found-GetsNone :
      (o : Option Event) (b : Bool) → Keeps (GetsNone rt) (process_found rt o b)
  unfolding process_found
  process_found-GetsNone none b = search gets_rules depth 6
  process_found-GetsNone (some e) b = process_event-GetsNone e b

  pub process_event_by_id-GetsNone :
      (i : Uuid) (b : Bool) → Keeps (GetsNone rt) (process_event_by_id rt i b)
  unfolding process_event_by_id
  process_event_by_id-GetsNone i b = search (gets_rules, process_found-GetsNone) depth 14

  pub reroute-GetsNone : (i : Uuid) (a : ℤ) (m : Message) → Keeps (GetsNone rt) (reroute rt i a m)
  unfolding reroute
  reroute-GetsNone i a m = search (gets_rules, publish_to_rabbitmq-GetsNone) depth 14

  module _ (on : rt.settings.task_queue_backend ≡ "rabbitmq") (i : Uuid) (a : ℤ) (m : Message) where
    finish-GetsNone : (b : Bool) → Keeps (GetsNone rt) (finish rt (from_message i a m) b)
    unfolding finish complete_event complete_message
    finish-GetsNone true = search gets_rules depth 8
    finish-GetsNone false =
        rw (retry_or_dead_letter-rabbitmq rt i a m on)
          (search (gets_rules, reroute-GetsNone) depth 8)

    -- Handling a message of RabbitMQ gets none.
    pub handle_envelope-GetsNone : Keeps (GetsNone rt) (handle_envelope rt (from_message i a m))
    unfolding handle_envelope
    handle_envelope-GetsNone =
        search (gets_rules, process_event_by_id-GetsNone, finish-GetsNone) depth 8
