-- ===== src/Service/Probes.antt =====
-- The exceptions of the health endpoint of app/main.py and of the depth endpoints of
-- app/routers/webhooks.py.
use webhook_ingestion_servic.Prelude.{◌≡◌, Bool}
use webhook_ingestion_servic.Runtime.{Runtime, World, raise, Exn}
use webhook_ingestion_servic.Runtime.Raises.{OnlyRaises, IsUnavailable, IsHttp503, raises_rules}
use webhook_ingestion_servic.Queue.Depth.{
  publish_depths, get_queue_snapshot, get_queue_depth, ping_queue,
}
use webhook_ingestion_servic.Routes.{get_queue_snapshot_or_raise}
use webhook_ingestion_servic.Service.{
  QueueHealth, ping_db, read_depth, queue_health, health_answer, health,
}

module _ (rt : Runtime) where
  get_queue_snapshot-OnlyRaises : OnlyRaises IsUnavailable (get_queue_snapshot rt)
  unfolding get_queue_snapshot publish_depths
  get_queue_snapshot-OnlyRaises = search (raises_rules, tt) depth 12

  get_queue_depth-OnlyRaises : OnlyRaises IsUnavailable (get_queue_depth rt)
  unfolding get_queue_depth
  get_queue_depth-OnlyRaises = search (raises_rules, get_queue_snapshot-OnlyRaises) depth 12

  ping_db-OnlyRaises : OnlyRaises IsHttp503 (ping_db rt)
  unfolding ping_db
  ping_db-OnlyRaises = search raises_rules depth 12

  ping_queue-OnlyRaises : OnlyRaises IsHttp503 (ping_queue rt)
  unfolding ping_queue
  ping_queue-OnlyRaises = search raises_rules depth 12

  queue_health-OnlyRaises : (b : Bool) → OnlyRaises IsHttp503 (queue_health rt b)
  unfolding queue_health read_depth
  queue_health-OnlyRaises b = search (raises_rules, get_queue_depth-OnlyRaises) depth 12

  health_answer-OnlyRaises :
      (b : Bool) (q : QueueHealth) → OnlyRaises IsHttp503 (health_answer rt b q)
  unfolding health_answer
  health_answer-OnlyRaises b q = search raises_rules depth 12

  health-OnlyRaises : OnlyRaises IsHttp503 (health rt)
  unfolding health
  health-OnlyRaises =
      search
        (
          raises_rules, ping_db-OnlyRaises, ping_queue-OnlyRaises, queue_health-OnlyRaises,
          health_answer-OnlyRaises,
        )
        depth 16

  -- Whatever the broker and the database do: where `health` (and `ready`) raises, it raises a 503, and
  -- no other exception gets out.
  pub health-IsHttp503 : (w : World) (x : Exn) → (health rt w).0 ≡ raise x → IsHttp503 x
  health-IsHttp503 w x h = health-OnlyRaises.at w x h

  get_queue_snapshot_or_raise-OnlyRaises : OnlyRaises IsHttp503 (get_queue_snapshot_or_raise rt)
  unfolding get_queue_snapshot_or_raise
  get_queue_snapshot_or_raise-OnlyRaises =
      search (raises_rules, get_queue_snapshot-OnlyRaises) depth 12

  -- Whatever the broker does: where the depths for the summary and the statistics cannot be read, a
  -- 503 is raised and no other exception.
  pub get_queue_snapshot_or_raise-IsHttp503 :
      (w : World) (x : Exn) → (get_queue_snapshot_or_raise rt w).0 ≡ raise x → IsHttp503 x
  get_queue_snapshot_or_raise-IsHttp503 w x h = get_queue_snapshot_or_raise-OnlyRaises.at w x h
