-- ===== src/Queue/Depth.antt =====
-- The probes of app/queue.py: `ping_queue`, `get_queue_snapshot`, `get_queue_depth`.
use webhook_ingestion_servic.Prelude.{ℕ, Bool, false, not, Option, none, some, if◌then◌else◌}
use webhook_ingestion_servic.Metrics.{set_queue_depths}
use webhook_ingestion_servic.Runtime.{
  Runtime, Action, queue_unavailable, passive_declare, llen, redis_ping, pure, throw, gets,
  record_metric, try_except, query, ◌>>=◌, ◌>>◌,
}
use webhook_ingestion_servic.Queue.Topology.{
  backend_is, is_queue_enabled, get_queue_client, ensure_rabbitmq_topology,
}

pub record QueueSnapshot : Type 0 where
  pub main_depth : Option ℕ
  pub retry_depth : Option ℕ
  pub dead_letter_depth : Option ℕ

-- `set_queue_depths` on the fields of a snapshot, which is then returned.
unfoldable pub publish_depths : QueueSnapshot → Action QueueSnapshot
publish_depths snapshot = do
  record_metric
      (set_queue_depths snapshot.main_depth snapshot.retry_depth snapshot.dead_letter_depth)
  pure snapshot

module _ (rt : Runtime) where
  unfoldable pub ping_backend : Action Bool
  unfolding query
  ping_backend =
      if backend_is rt "redis"
      then (do get_queue_client rt; query rt redis_ping rt.ping_reply)
      else do
        ensure_rabbitmq_topology rt
        closed ← gets (λ w. rt.channel_is_closed w.history)
        pure (not closed)

  -- Any exception makes the answer False.
  unfoldable pub ping_queue : Action (Option Bool)
  unfolding is_queue_enabled
  ping_queue =
      if is_queue_enabled rt
      then try_except (do result ← ping_backend; pure (some result)) (λ e. pure (some false))
      else pure none

  unfoldable pub redis_snapshot : Action QueueSnapshot
  unfolding query publish_depths
  redis_snapshot = do
    get_queue_client rt
    main_depth ←
        query rt (llen rt.settings.event_queue_name)
          (λ h. rt.list_length h rt.settings.event_queue_name)
    publish_depths
        (record { main_depth = some main_depth; retry_depth = some 0; dead_letter_depth = some 0 })

  unfoldable pub rabbitmq_snapshot : Action QueueSnapshot
  unfolding query publish_depths
  rabbitmq_snapshot = do
    ensure_rabbitmq_topology rt
    main_count ←
        query rt (passive_declare rt.settings.event_queue_name)
          (λ h. rt.message_count h rt.settings.event_queue_name)
    retry_count ←
        query rt (passive_declare rt.settings.retry_queue_name)
          (λ h. rt.message_count h rt.settings.retry_queue_name)
    dead_letter_count ←
        query rt (passive_declare rt.settings.dead_letter_queue_name)
          (λ h. rt.message_count h rt.settings.dead_letter_queue_name)
    publish_depths (record {
      main_depth = some main_count;
      retry_depth = some retry_count;
      dead_letter_depth = some dead_letter_count;
    })

  unfoldable pub get_queue_snapshot : Action QueueSnapshot
  unfolding is_queue_enabled publish_depths
  get_queue_snapshot =
      if is_queue_enabled rt
      then (if backend_is rt "redis"
          then try_except redis_snapshot
              (λ e. throw (queue_unavailable "Failed to read Redis queue depth"))
          else try_except rabbitmq_snapshot
              (λ e. throw (queue_unavailable "Failed to read RabbitMQ queue depth")))
      else publish_depths
          (record { main_depth = none; retry_depth = none; dead_letter_depth = none })

  unfoldable pub get_queue_depth : Action (Option ℕ)
  get_queue_depth = do snapshot ← get_queue_snapshot; pure snapshot.main_depth
