-- ===== src/Tests/Probes.antt =====
-- The theorems on the health endpoint and the middleware (app/main.py) and on the worker's process
-- (app/worker.py), each applied to the sample runtime or to one in which every external call raises.
use webhook_ingestion_servic.Prelude.{◌≡◌, refl, ℕ, String, some, [], true}
use webhook_ingestion_servic.Runtime.{http, ok, raise, perform, Action, Runtime, World}
use webhook_ingestion_servic.Runtime.Raises.{IsHttp503}
use webhook_ingestion_servic.Queue.Topology.{
  is_queue_enabled, ensure_rabbitmq_topology, build_topology,
}
use webhook_ingestion_servic.Queue.Depth.{ping_queue, ping_backend}
use webhook_ingestion_servic.Service.{
  health, ping_db, queue_health, health_answer, choose_request_id, log_requests,
}
use webhook_ingestion_servic.Service.Probes.{health-IsHttp503}
use webhook_ingestion_servic.Service.Requests.{Passes, log_requests-Passes}
use webhook_ingestion_servic.Settings.{default_settings}
use webhook_ingestion_servic.Worker.{run_worker}
use webhook_ingestion_servic.Service.Lifespan.{worker_main, IsClosed, worker_main-IsClosed}
use webhook_ingestion_servic.Sample.{sample_runtime, dead_runtime, stocked}

dead_health : (health dead_runtime stocked).0 ≡ raise (http 503 "Dependency unavailable")
unfolding health ping_db ping_queue ping_backend queue_health health_answer is_queue_enabled
    ensure_rabbitmq_topology build_topology perform
dead_health = refl

health-IsHttp503_example : IsHttp503 (http 503 "Dependency unavailable")
health-IsHttp503_example =
    health-IsHttp503 dead_runtime stocked (http 503 "Dependency unavailable") dead_health

-- A handler that answers with 200.
abbrev answers : String → Action ℕ
answers request_id w = (ok 200, w)

log_requests-Passes_example :
    Passes "GET" "/live"
      (choose_request_id sample_runtime
        (some "r-1")
        (sample_runtime.str_of_uuid (sample_runtime.uuid4 [])))
      (ok 200, stocked)
      (log_requests sample_runtime "GET" "/live" (some "r-1") answers stocked)
log_requests-Passes_example =
    log_requests-Passes sample_runtime "GET" "/live" (some "r-1") answers stocked

-- The sample on the default backend, for which there is no worker.
abbrev default_runtime : Runtime
default_runtime = record sample_runtime { settings = default_settings }

-- A process that has opened its connections.
abbrev opened : World
opened = record stocked {
  redis_client = true;
  rabbitmq_connection = true;
  rabbitmq_channel = true;
  topology_ready = true;
}

worker_main-IsClosed_example :
    ((worker_main default_runtime 3 opened).0 ≡ (run_worker default_runtime 3 opened).0)
    × IsClosed default_runtime (worker_main default_runtime 3 opened).1
worker_main-IsClosed_example =
    worker_main-IsClosed default_runtime 3 opened (record { works = λ h c. refl })
