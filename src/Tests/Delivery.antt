-- ===== src/Tests/Delivery.antt =====
-- The theorems on the worker and on the queues (app/worker.py, app/queue.py), each applied to a sample
-- message.
use webhook_ingestion_servic.Runtime.{World, ok, perform, query}
use webhook_ingestion_servic.Queue.Topology.{
  publish_to_rabbitmq, ensure_rabbitmq_topology, build_topology, open_rabbitmq_connection,
  open_rabbitmq_channel, declare_topology,
}
use webhook_ingestion_servic.Queue.Topology.Ready.{IsReady, ensure_rabbitmq_topology-IsReady}
use webhook_ingestion_servic.Worker.Redis.{from_redis, Requeues, handle_envelope-Requeues}
use webhook_ingestion_servic.Sample.{redis_runtime, sample_message, sample_runtime, stocked}
use webhook_ingestion_servic.Prelude.{int_laws, ◌≡◌, length, ◌≤◌, refl, [], ◌∷◌, pos}
use webhook_ingestion_servic.Events.{Uuid}
use webhook_ingestion_servic.Runtime.Rules.{log}
use webhook_ingestion_servic.Queue.Payload.{
  decode_payload, int_of_json, decode_fields, uuid_of_json,
}
use webhook_ingestion_servic.Queue.Consume.{
  reroute, redrive_dead_letter, redrive_loop, redrive_message,
}
use webhook_ingestion_servic.Queue.Consume.Reroute.{Reroutes, reroute-Reroutes}
use webhook_ingestion_servic.Queue.Consume.Redrive.{Redriven, redrive_dead_letter-Redriven}
use webhook_ingestion_servic.Worker.{handle_envelope}
use webhook_ingestion_servic.Worker.Delivery.{from_message, Delivers, handle_envelope-Delivers}
use webhook_ingestion_servic.Json.{get}

handle_envelope-Delivers_example :
    Delivers sample_runtime 1
      (pos 1)
      sample_message
      stocked
      (handle_envelope sample_runtime (from_message 1 (pos 1) sample_message) stocked)
handle_envelope-Delivers_example =
    handle_envelope-Delivers sample_runtime 1 (pos 1) sample_message stocked refl

reroute-Reroutes_example :
    Reroutes sample_runtime 1
      (pos 3)
      sample_message
      stocked
      (reroute sample_runtime 1 (pos 3) sample_message stocked)
reroute-Reroutes_example = reroute-Reroutes sample_runtime 1 (pos 3) sample_message stocked

-- The dead-letter queue holds one message.
sample_redriven :
    redrive_dead_letter sample_runtime 5 stocked
    ≡ (ok (1 ∷ []), (redrive_dead_letter sample_runtime 5 stocked).1)
unfolding redrive_dead_letter redrive_loop redrive_message decode_payload decode_fields get
    uuid_of_json int_of_json ensure_rabbitmq_topology build_topology open_rabbitmq_connection
    open_rabbitmq_channel declare_topology publish_to_rabbitmq perform query
sample_redriven = refl

redrive_dead_letter-Redriven_example :
    (length {A = Uuid} (1 ∷ []) ≤ 5)
    × Redriven sample_runtime
        (1 ∷ [])
        (log stocked.history)
        (log (redrive_dead_letter sample_runtime 5 stocked).1.history)
redrive_dead_letter-Redriven_example =
    redrive_dead_letter-Redriven sample_runtime 5 (1 ∷ []) stocked
      (redrive_dead_letter sample_runtime 5 stocked).1 refl sample_redriven

handle_envelope-Requeues_example :
    Requeues redis_runtime 1 stocked (handle_envelope redis_runtime (from_redis 1) stocked)
handle_envelope-Requeues_example =
    handle_envelope-Requeues redis_runtime 1 stocked refl (omega int_laws)

sample_set_up :
    ensure_rabbitmq_topology sample_runtime stocked
    ≡ (ok tt, (ensure_rabbitmq_topology sample_runtime stocked).1)
unfolding ensure_rabbitmq_topology build_topology open_rabbitmq_connection open_rabbitmq_channel
    declare_topology perform
sample_set_up = refl

abbrev set_up : World
set_up = (ensure_rabbitmq_topology sample_runtime stocked).1

ensure_rabbitmq_topology-IsReady_example :
    IsReady set_up × (ensure_rabbitmq_topology sample_runtime set_up ≡ (ok tt, set_up))
ensure_rabbitmq_topology-IsReady_example =
    ensure_rabbitmq_topology-IsReady sample_runtime stocked set_up sample_set_up
