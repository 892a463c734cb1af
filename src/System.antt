-- ===== src/System.antt =====
-- The service as a whole: any number of API and worker processes (app/main.py, app/worker.py) on one
-- database. Each operation runs to its end; between operations another process may go on, with its own
-- module globals, clock and broker connection.
pub mod Changes
pub mod Evolves
pub mod Quiet
pub mod Actions
pub mod Keys
pub mod Soundness
pub mod Kept
pub mod Refinement
pub mod Stored
pub mod Idempotent
pub mod EndToEnd
pub mod Background
use webhook_ingestion_servic.Prelude.{◌≡◌, String, Option, List, ℤ}
use webhook_ingestion_servic.Events.{Uuid}
use webhook_ingestion_servic.Runtime.{Runtime, World, Action, pure, ◌>>=◌, ◌>>◌}
use webhook_ingestion_servic.Queue.Topology
use webhook_ingestion_servic.Worker
use webhook_ingestion_servic.Service
use webhook_ingestion_servic.Routes
use webhook_ingestion_servic.Routes.{WebhookIn, HttpRequest}

-- What a process can do: answer a request, run the background tasks of a request, go round the
-- worker's loop, poll the queue, or shut down.
pub data Operation : Type 0 where
  post_webhook : WebhookIn → HttpRequest → Operation
  get_events : HttpRequest → ℤ → ℤ → Option String → Operation
  get_events_summary get_queue_stats : HttpRequest → Operation
  retry_event : HttpRequest → Uuid → Operation
  redrive_dlq : HttpRequest → ℤ → Operation
  run_tasks : List Uuid → Operation
  worker_round health poll_queue_metrics dispose_queue : Operation

abbrev done {ℓ} : {A : Type ℓ} → Action A → Action (Unit {0})
done m = m >>= λ _. pure tt

-- The handlers, run for their effect.
unfoldable pub operate : Runtime → Operation → Action (Unit {0})
operate rt (post_webhook d request) = done (Routes.post_webhook rt d request)
operate rt (get_events request limit offset source) =
    done (Routes.get_events rt request limit offset source)
operate rt (get_events_summary request) = done (Routes.get_events_summary rt request)
operate rt (get_queue_stats request) = done (Routes.get_queue_stats rt request)
operate rt (retry_event request event_id) = done (Routes.retry_event rt request event_id)
operate rt (redrive_dlq request limit) = done (Routes.redrive_dlq rt request limit)
operate rt (run_tasks ids) = Routes.run_tasks rt ids
operate rt worker_round = Worker.worker_round rt
operate rt health = done (Service.health rt)
operate rt poll_queue_metrics = Service.poll_queue_metrics rt
operate rt dispose_queue = Topology.dispose_queue rt

-- One operation of one process, or a switch to another process on the same rows.
pub data Step (w v : World) : Type 0 where
  acts : (rt : Runtime) (o : Operation) → v ≡ (operate rt o w).1 → Step w v
  switches : v.events ≡ w.events → Step w v

pub data Reaches (w : World) : World → Type 0 where
  here : Reaches w w
  next : {u v : World} → Reaches w u → Step u v → Reaches w v
