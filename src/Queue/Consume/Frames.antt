-- ===== src/Queue/Consume/Frames.antt =====
-- The queue operations of app/queue.py leave the database alone; those that consume tell the broker
-- nothing but acknowledgements.
use webhook_ingestion_servic.Prelude.{ℤ, Option, none, some}
use webhook_ingestion_servic.Events.{Uuid}
use webhook_ingestion_servic.Runtime.{Runtime, Message, Outcome, ok, raise}
use webhook_ingestion_servic.Runtime.Rules.{Keeps, SameRows, rows_rules}
use webhook_ingestion_servic.Queue.Topology.Frames.{
  get_queue_client-SameRows, publish_to_rabbitmq-SameRows,
}
use webhook_ingestion_servic.Queue.Consume.{
  QueueEnvelope, send_event, enqueue_event, complete_message, complete_event, reroute,
  reroute_message, retry_or_dead_letter, redrive_message,
}

module _ (rt : Runtime) where
  send_event-SameRows :
      (event_id : Uuid) (attempt : ℤ) → Keeps SameRows (send_event rt event_id attempt)
  unfolding send_event
  send_event-SameRows event_id attempt =
      search (rows_rules, get_queue_client-SameRows, publish_to_rabbitmq-SameRows) depth 8

  pub enqueue_event-SameRows :
      (event_id : Uuid) (attempt : ℤ) → Keeps SameRows (enqueue_event rt event_id attempt)
  unfolding enqueue_event
  enqueue_event-SameRows event_id attempt = search (rows_rules, send_event-SameRows)

  complete_message-SameRows : (m : Option Message) → Keeps SameRows (complete_message rt m)
  unfolding complete_message
  complete_message-SameRows none = search rows_rules
  complete_message-SameRows (some m) = search rows_rules

  pub complete_event-SameRows :
      (envelope : QueueEnvelope) → Keeps SameRows (complete_event rt envelope)
  unfolding complete_event
  complete_event-SameRows envelope = complete_message-SameRows envelope.raw_message

  reroute-SameRows :
      (event_id : Uuid) (attempt : ℤ) (m : Message) → Keeps SameRows (reroute rt event_id attempt m)
  unfolding reroute
  reroute-SameRows event_id attempt m = search (rows_rules, publish_to_rabbitmq-SameRows) depth 10

  reroute_message-SameRows :
      (event_id : Uuid) (attempt : ℤ) (m : Option Message)
      → Keeps SameRows (reroute_message rt event_id attempt m)
  unfolding reroute_message
  reroute_message-SameRows event_id attempt none = search rows_rules
  reroute_message-SameRows event_id attempt (some m) = reroute-SameRows event_id attempt m

  pub retry_or_dead_letter-SameRows :
      (envelope : QueueEnvelope) → Keeps SameRows (retry_or_dead_letter rt envelope)
  unfolding retry_or_dead_letter
  retry_or_dead_letter-SameRows envelope =
      search (rows_rules, enqueue_event-SameRows, reroute_message-SameRows) depth 8

  pub redrive_message-SameRows :
      (m : Message) (r : Outcome (Uuid × ℤ)) → Keeps SameRows (redrive_message rt m r)
  unfolding redrive_message
  redrive_message-SameRows m (ok (i, n)) = search (rows_rules, publish_to_rabbitmq-SameRows) depth 8
  redrive_message-SameRows m (raise e) = search rows_rules
