-- ===== src/Queue/Topology/Returns.antt =====
-- The RabbitMQ connection of app/queue.py comes up, and publishing works, if no external call raises.
use webhook_ingestion_servic.Prelude.{String, ◌≡◌, ℤ}
use webhook_ingestion_servic.Events.{Uuid}
use webhook_ingestion_servic.Runtime.{Runtime}
use webhook_ingestion_servic.Runtime.Calm.{IsCalm, Returns, returns_rules}
use webhook_ingestion_servic.Queue.Topology.{
  open_rabbitmq_connection, open_rabbitmq_channel, declare_topology, build_topology,
  ensure_rabbitmq_topology, publish_to_rabbitmq,
}

module _ (rt : Runtime) (calm : IsCalm rt) where
  open_rabbitmq_connection-Returns : Returns (open_rabbitmq_connection rt)
  unfolding open_rabbitmq_connection
  open_rabbitmq_connection-Returns = search (returns_rules, calm) depth 14

  open_rabbitmq_channel-Returns : Returns (open_rabbitmq_channel rt)
  unfolding open_rabbitmq_channel
  open_rabbitmq_channel-Returns = search (returns_rules, calm) depth 14

  declare_topology-Returns : Returns (declare_topology rt)
  unfolding declare_topology
  declare_topology-Returns = search (returns_rules, calm) depth 14

  build_topology-Returns : Returns (build_topology rt)
  unfolding build_topology
  build_topology-Returns =
      search
        (
          returns_rules, calm, open_rabbitmq_connection-Returns, open_rabbitmq_channel-Returns,
          declare_topology-Returns,
        )
        depth 14

  module _ (on : rt.settings.task_queue_backend ≡ "rabbitmq") where
    pub ensure_rabbitmq_topology-Returns : Returns (ensure_rabbitmq_topology rt)
    unfolding ensure_rabbitmq_topology
    ensure_rabbitmq_topology-Returns =
        simp on (search (returns_rules, build_topology-Returns) depth 8)

    pub publish_to_rabbitmq-Returns :
        (event_id : Uuid) (routing_key : String) (attempt : ℤ)
        → Returns (publish_to_rabbitmq rt event_id routing_key attempt)
    unfolding publish_to_rabbitmq
    publish_to_rabbitmq-Returns event_id routing_key attempt =
        search (returns_rules, calm, ensure_rabbitmq_topology-Returns) depth 10
