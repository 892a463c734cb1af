-- ===== src/Queue/Topology/Frames.antt =====
-- What the connections of app/queue.py leave alone: the rows of the database, and the messages.
use webhook_ingestion_servic.Prelude.{String, ℤ}
use webhook_ingestion_servic.Events.{Uuid}
use webhook_ingestion_servic.Runtime.{Runtime}
use webhook_ingestion_servic.Runtime.Rules.{Keeps, SameLog, SameRows, log_rules, rows_rules}
use webhook_ingestion_servic.Queue.Topology.{
  open_redis_client, get_queue_client, open_rabbitmq_connection, open_rabbitmq_channel,
  declare_topology, build_topology, ensure_rabbitmq_topology, publish_to_rabbitmq,
}

module _ (rt : Runtime) where
  pub open_redis_client-SameRows : Keeps SameRows (open_redis_client rt)
  unfolding open_redis_client
  open_redis_client-SameRows = search rows_rules depth 14

  pub open_redis_client-SameLog : Keeps SameLog (open_redis_client rt)
  unfolding open_redis_client
  open_redis_client-SameLog = search log_rules depth 14

  pub get_queue_client-SameRows : Keeps SameRows (get_queue_client rt)
  unfolding get_queue_client
  get_queue_client-SameRows = search (rows_rules, open_redis_client-SameRows) depth 14

  pub get_queue_client-SameLog : Keeps SameLog (get_queue_client rt)
  unfolding get_queue_client
  get_queue_client-SameLog = search (log_rules, open_redis_client-SameLog) depth 14

  pub open_rabbitmq_connection-SameRows : Keeps SameRows (open_rabbitmq_connection rt)
  unfolding open_rabbitmq_connection
  open_rabbitmq_connection-SameRows = search rows_rules depth 14

  pub open_rabbitmq_connection-SameLog : Keeps SameLog (open_rabbitmq_connection rt)
  unfolding open_rabbitmq_connection
  open_rabbitmq_connection-SameLog = search log_rules depth 14

  pub open_rabbitmq_channel-SameRows : Keeps SameRows (open_rabbitmq_channel rt)
  unfolding open_rabbitmq_channel
  open_rabbitmq_channel-SameRows = search rows_rules depth 14

  pub open_rabbitmq_channel-SameLog : Keeps SameLog (open_rabbitmq_channel rt)
  unfolding open_rabbitmq_channel
  open_rabbitmq_channel-SameLog = search log_rules depth 14

  pub declare_topology-SameRows : Keeps SameRows (declare_topology rt)
  unfolding declare_topology
  declare_topology-SameRows = search rows_rules depth 14

  pub declare_topology-SameLog : Keeps SameLog (declare_topology rt)
  unfolding declare_topology
  declare_topology-SameLog = search log_rules depth 14

  pub build_topology-SameRows : Keeps SameRows (build_topology rt)
  unfolding build_topology
  build_topology-SameRows =
      search
        (
          rows_rules, open_rabbitmq_connection-SameRows, open_rabbitmq_channel-SameRows,
          declare_topology-SameRows,
        )
        depth 14

  pub build_topology-SameLog : Keeps SameLog (build_topology rt)
  unfolding build_topology
  build_topology-SameLog =
      search
        (
          log_rules, open_rabbitmq_connection-SameLog, open_rabbitmq_channel-SameLog,
          declare_topology-SameLog,
        )
        depth 14

  pub ensure_rabbitmq_topology-SameRows : Keeps SameRows (ensure_rabbitmq_topology rt)
  unfolding ensure_rabbitmq_topology
  ensure_rabbitmq_topology-SameRows = search (rows_rules, build_topology-SameRows) depth 14

  pub ensure_rabbitmq_topology-SameLog : Keeps SameLog (ensure_rabbitmq_topology rt)
  unfolding ensure_rabbitmq_topology
  ensure_rabbitmq_topology-SameLog = search (log_rules, build_topology-SameLog) depth 14

  pub publish_to_rabbitmq-SameRows :
      (event_id : Uuid) (routing_key : String) (attempt : ℤ)
      → Keeps SameRows (publish_to_rabbitmq rt event_id routing_key attempt)
  unfolding publish_to_rabbitmq
  publish_to_rabbitmq-SameRows event_id routing_key attempt =
      search (rows_rules, ensure_rabbitmq_topology-SameRows) depth 14
