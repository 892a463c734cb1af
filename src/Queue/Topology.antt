-- ===== src/Queue/Topology.antt =====
-- The connections of app/queue.py: the Redis client, the RabbitMQ connection, channel and topology,
-- and publishing through them.
pub mod Frames
pub mod Returns
pub mod Ready
use webhook_ingestion_servic.Prelude.{
  String, Bool, true, false, not, ◌&&◌, ◌||◌, none, some, ℤ, str_eq, if◌then◌else◌,
}
use webhook_ingestion_servic.Events.{Uuid}
use webhook_ingestion_servic.Runtime.{
  Runtime, World, Action, queue_unavailable, import_aio_pika, import_redis, connect_robust,
  open_channel, set_qos, declare_exchange, get_exchange, declare_queue, bind_queue, publish,
  close_channel, close_connection, redis_from_url, redis_aclose, pure, throw, gets, modify,
  try_except, perform, ◌>>=◌, ◌>>◌,
}
use webhook_ingestion_servic.Queue.Payload.{queue_payload}

module _ (rt : Runtime) where
  abbrev pub backend_is : String → Bool
  backend_is name = str_eq rt.settings.task_queue_backend name

  unfoldable pub is_queue_enabled : Bool
  is_queue_enabled = backend_is "redis" || backend_is "rabbitmq"

  -- An import that fails raises ModuleNotFoundError, which becomes QueueUnavailableError.
  unfoldable pub open_redis_client : Action (Unit {0})
  unfolding perform
  open_redis_client = do
    try_except (perform rt import_redis) (λ e. throw (
        queue_unavailable "Redis dependency is not installed. Run pip install -r requirements.txt"))
    perform rt redis_from_url
    modify (λ w. record w { redis_client = true })

  -- `_get_queue_client`
  unfoldable pub get_queue_client : Action (Unit {0})
  unfolding open_redis_client
  get_queue_client =
      if backend_is "redis"
      then (do ready ← gets (λ w. w.redis_client); if ready then pure tt else open_redis_client)
      else throw (queue_unavailable "Redis queue is disabled")

  unfoldable pub open_rabbitmq_connection : Action (Unit {0})
  unfolding perform
  open_rabbitmq_connection = do
    perform rt connect_robust
    modify (λ w. record w { rabbitmq_connection = true })

  -- The channel is kept before its prefetch count is set.
  unfoldable pub open_rabbitmq_channel : Action (Unit {0})
  unfolding perform
  open_rabbitmq_channel = do
    perform rt open_channel
    modify (λ w. record w { rabbitmq_channel = true })
    perform rt (set_qos 10)

  -- The exchange, the three queues and their bindings.
  unfoldable pub declare_topology : Action (Unit {0})
  unfolding perform
  declare_topology = do
    perform rt (declare_exchange rt.settings.rabbitmq_exchange_name)
    perform rt (declare_queue rt.settings.event_queue_name none)
    perform rt (bind_queue rt.settings.event_queue_name rt.settings.event_queue_name)
    perform rt (
        declare_queue rt.settings.retry_queue_name (
          some (record {
            message_ttl = rt.settings.rabbitmq_retry_delay_ms;
            dead_letter_exchange = rt.settings.rabbitmq_exchange_name;
            dead_letter_routing_key = rt.settings.event_queue_name;
          })))
    perform rt (bind_queue rt.settings.retry_queue_name rt.settings.retry_queue_name)
    perform rt (declare_queue rt.settings.dead_letter_queue_name none)
    perform rt (bind_queue rt.settings.dead_letter_queue_name rt.settings.dead_letter_queue_name)

  unfoldable pub build_topology : Action (Unit {0})
  unfolding perform open_rabbitmq_connection open_rabbitmq_channel declare_topology
  build_topology = do
    try_except (perform rt import_aio_pika) (λ e. throw (
        queue_unavailable
          "RabbitMQ dependency is not installed. Run pip install -r requirements.txt"))
    connected ← gets (λ w. w.rabbitmq_connection)
    if connected then pure tt else open_rabbitmq_connection
    opened ← gets (λ w. w.rabbitmq_channel)
    if opened then pure tt else open_rabbitmq_channel
    declare_topology
    modify (λ w. record w { topology_ready = true })

  -- `_ensure_rabbitmq_topology`
  unfoldable pub ensure_rabbitmq_topology : Action (Unit {0})
  ensure_rabbitmq_topology =
      if backend_is "rabbitmq"
      then (do
        ready ← gets (λ w. w.rabbitmq_channel && w.topology_ready)
        if ready then pure tt else build_topology)
      else throw (queue_unavailable "RabbitMQ queue is disabled")

  -- `_publish_to_rabbitmq`
  unfoldable pub publish_to_rabbitmq : Uuid → String → ℤ → Action (Unit {0})
  unfolding perform
  publish_to_rabbitmq event_id routing_key attempt = do
    perform rt import_aio_pika
    ensure_rabbitmq_topology
    perform rt (get_exchange rt.settings.rabbitmq_exchange_name)
    perform rt (publish routing_key (queue_payload rt event_id attempt))

  unfoldable pub close_redis : Action (Unit {0})
  unfolding perform
  close_redis = do
    opened ← gets (λ w. w.redis_client)
    if opened
        then (do perform rt redis_aclose; modify (λ w. record w { redis_client = false }))
        else pure tt

  unfoldable pub close_rabbitmq_channel : Action (Unit {0})
  unfolding perform
  close_rabbitmq_channel = do
    opened ← gets (λ w. w.rabbitmq_channel)
    if opened
        then (do perform rt close_channel; modify (λ w. record w { rabbitmq_channel = false }))
        else pure tt

  unfoldable pub close_rabbitmq_connection : Action (Unit {0})
  unfolding perform
  close_rabbitmq_connection = do
    opened ← gets (λ w. w.rabbitmq_connection)
    if opened
        then (do
          perform rt close_connection
          modify (λ w. record w { rabbitmq_connection = false }))
        else pure tt

  unfoldable pub dispose_queue : Action (Unit {0})
  unfolding close_redis close_rabbitmq_channel close_rabbitmq_connection
  dispose_queue = do
    close_redis
    close_rabbitmq_channel
    close_rabbitmq_connection
    modify (λ w. record w { topology_ready = false })
