-- ===== src/Queue/Consume.antt =====
-- The queue operations of app/queue.py: enqueue, dequeue, completion, retry or dead letter, redrive.
pub mod Frames
pub mod Reroute
pub mod Redrive
pub mod Redis
use webhook_ingestion_servic.Prelude.{
  ℕ, zero, suc, String, Bool, true, false, Option, none, some, List, [], ◌∷◌, length, ℤ, pos, ◌+ℤ◌,
  leb_ℤ, if◌then◌else◌,
}
use webhook_ingestion_servic.Events.{Uuid}
use webhook_ingestion_servic.Metrics.{record_retry, record_redrive}
use webhook_ingestion_servic.Runtime.{
  Runtime, Message, Outcome, ok, raise, Action, queue_unavailable, passive_declare, get_message,
  ack, rpush, blpop, pure, throw, gets, record_metric, try_except, perform, query, ◌>>=◌, ◌>>◌,
}
use webhook_ingestion_servic.Queue.Payload.{decode_payload}
use webhook_ingestion_servic.Queue.Topology.{
  backend_is, get_queue_client, ensure_rabbitmq_topology, publish_to_rabbitmq,
}

pub record QueueEnvelope : Type 0 where
  pub event_id : Uuid
  pub attempt : ℤ
  pub raw_message : Option Message

-- What `retry_or_dead_letter` did.
pub data Route : Type 0 where
  retry dead_letter : Route

module _ (rt : Runtime) where
  -- The body of the `try` of `enqueue_event`.
  unfoldable pub send_event : Uuid → ℤ → Action (Unit {0})
  unfolding perform
  send_event event_id attempt =
      if backend_is rt "redis"
      then (do
        get_queue_client rt
        perform rt (rpush rt.settings.event_queue_name (rt.str_of_uuid event_id)))
      else if backend_is rt "rabbitmq"
      then publish_to_rabbitmq rt event_id rt.settings.event_queue_name attempt
      else throw (queue_unavailable "Queue backend is disabled")

  unfoldable pub enqueue_event : Uuid → ℤ → Action (Unit {0})
  unfolding send_event
  enqueue_event event_id attempt =
      try_except (send_event event_id attempt)
        (λ e. throw (queue_unavailable "Failed to enqueue event"))

  -- The text that BLPOP gave, if it is a UUID.
  abbrev redis_envelope : Option Uuid → Option QueueEnvelope
  redis_envelope none = none
  redis_envelope (some id) = some (record { event_id = id; attempt = pos 1; raw_message = none })

  abbrev popped_envelope : Option String → Option QueueEnvelope
  popped_envelope none = none
  popped_envelope (some event_id) = redis_envelope (rt.uuid_of_str event_id)

  unfoldable pub dequeue_redis : Action (Option QueueEnvelope)
  unfolding query
  dequeue_redis = do
    get_queue_client rt
    payload ← query rt (blpop rt.settings.event_queue_name) rt.popped
    pure (popped_envelope payload)

  -- A message that cannot be decoded is acknowledged and dropped.
  unfoldable pub open_message : Message → Outcome (Uuid × ℤ) → Action (Option QueueEnvelope)
  unfolding perform
  open_message message (ok (event_id, attempt)) =
      pure (some (record { event_id = event_id; attempt = attempt; raw_message = some message }))
  open_message message (raise e) = do perform rt (ack message); pure none

  unfoldable pub open_next : Option Message → Action (Option QueueEnvelope)
  unfolding open_message
  open_next none = pure none
  open_next (some message) = open_message message (decode_payload rt message.body)

  unfoldable pub dequeue_rabbitmq : Action (Option QueueEnvelope)
  unfolding perform query open_next
  dequeue_rabbitmq = do
    ensure_rabbitmq_topology rt
    perform rt (passive_declare rt.settings.event_queue_name)
    message ←
        query rt (get_message rt.settings.event_queue_name)
          (λ h. rt.next_message h rt.settings.event_queue_name)
    open_next message

  unfoldable pub dequeue_event : Action (Option QueueEnvelope)
  dequeue_event =
      if backend_is rt "redis"
      then dequeue_redis
      else if backend_is rt "rabbitmq"
      then dequeue_rabbitmq
      else pure none

  unfoldable pub complete_message : Option Message → Action (Unit {0})
  unfolding perform
  complete_message none = pure tt
  complete_message (some m) = perform rt (ack m)

  unfoldable pub complete_event : QueueEnvelope → Action (Unit {0})
  unfolding complete_message
  complete_event envelope = complete_message envelope.raw_message

  -- The RabbitMQ part of `retry_or_dead_letter`, for a message that is at hand.
  unfoldable pub reroute : Uuid → ℤ → Message → Action Route
  unfolding perform
  reroute event_id attempt m =
      if leb_ℤ (attempt +ℤ pos 1) rt.settings.rabbitmq_max_delivery_attempts
      then (do
        publish_to_rabbitmq rt event_id rt.settings.retry_queue_name (attempt +ℤ pos 1)
        record_metric record_retry
        perform rt (ack m)
        pure retry)
      else (do
        publish_to_rabbitmq rt event_id rt.settings.dead_letter_queue_name attempt
        perform rt (ack m)
        pure dead_letter)

  unfoldable pub reroute_message : Uuid → ℤ → Option Message → Action Route
  reroute_message event_id attempt none =
      throw (queue_unavailable "RabbitMQ message context is missing")
  reroute_message event_id attempt (some m) = reroute event_id attempt m

  unfoldable pub retry_or_dead_letter : QueueEnvelope → Action Route
  unfolding reroute_message
  retry_or_dead_letter envelope =
      if backend_is rt "redis"
      then (do enqueue_event envelope.event_id (pos 1); pure retry)
      else reroute_message envelope.event_id envelope.attempt envelope.raw_message

  -- The body of the redrive loop for one message: the event it put back, or none for a dropped one.
  unfoldable pub redrive_message : Message → Outcome (Uuid × ℤ) → Action (Option Uuid)
  unfolding perform
  redrive_message m (ok (event_id, attempt)) = do
    publish_to_rabbitmq rt event_id rt.settings.event_queue_name (pos 1)
    perform rt (ack m)
    pure (some event_id)
  redrive_message m (raise e) = do perform rt (ack m); pure none

  abbrev pub listed : Option Uuid → List Uuid → List Uuid
  listed none ids = ids
  listed (some i) ids = i ∷ ids

  -- `for _ in range(limit)`, with a `break` on an empty queue.
  unfoldable pub redrive_loop : ℕ → Action (List Uuid)
  unfolding query
  redrive_loop zero = pure []
  redrive_loop (suc limit) =
      let next_round = redrive_loop limit in
      do
        message ←
            query rt (get_message rt.settings.dead_letter_queue_name)
              (λ h. rt.next_message h rt.settings.dead_letter_queue_name)
        elim message [
          | none ↦ pure []
          | some m ↦ do
            redriven ← redrive_message m (decode_payload rt m.body)
            others ← next_round
            pure (listed redriven others)
        ]

  unfoldable pub redrive_dead_letter : ℕ → Action (List Uuid)
  unfolding perform
  redrive_dead_letter limit =
      if backend_is rt "rabbitmq"
      then (do
        ensure_rabbitmq_topology rt
        perform rt (passive_declare rt.settings.dead_letter_queue_name)
        redriven ← redrive_loop limit
        record_metric (record_redrive (length redriven))
        pure redriven)
      else throw (queue_unavailable "DLQ redrive requires TASK_QUEUE_BACKEND=rabbitmq")
