-- ===== src/Service.antt =====
-- app/main.py: the health endpoints, the request middleware, the queue metrics poller and the
-- shutdown.
pub mod Probes
pub mod Requests
pub mod Lifespan
use webhook_ingestion_servic.Prelude.{
  ℕ, String, Bool, true, false, not, ◌&&◌, ◌||◌, Option, none, some, str_eq, if◌then◌else◌,
}
use webhook_ingestion_servic.Metrics.{record_http_request, set_dependency_state}
use webhook_ingestion_servic.Runtime.{
  Runtime, Action, http, db_connect, db_execute, pure, throw, gets, record_metric, try_except,
  except_unavailable, perform, ◌>>=◌, ◌>>◌,
}
use webhook_ingestion_servic.Queue.Topology.{is_queue_enabled}
use webhook_ingestion_servic.Queue.Depth.{get_queue_snapshot, get_queue_depth, ping_queue}

pub record HealthOut : Type 0 where
  pub status : String
  pub database : String
  pub queue : String
  pub queue_depth : Option ℕ
  pub queue_backend : String
  pub version : String

abbrev pub app_version : String
app_version = "2.0.0"

-- What `health` finds out about the queue.
pub record QueueHealth : Type 0 where
  pub queue_ok : Bool
  pub queue_status : String
  pub queue_depth : Option ℕ

-- `bool` of an optional answer.
abbrev pub is_yes : Option Bool → Bool
is_yes none = false
is_yes (some b) = b

module _ (rt : Runtime) where
  -- `ping_db` of app/db.py
  unfoldable pub ping_db : Action Bool
  unfolding perform
  ping_db =
      try_except (do perform rt db_connect; perform rt db_execute; pure true) (λ e. pure false)

  unfoldable pub read_depth : Action QueueHealth
  read_depth =
      except_unavailable
        (do
          depth ← get_queue_depth rt
          pure (record { queue_ok = true; queue_status = "ok"; queue_depth = depth }))
        (λ e. pure (record { queue_ok = false; queue_status = "unavailable"; queue_depth = none }))

  -- The part of `health` between the pings and the dependency states.
  unfoldable pub queue_health : Bool → Action QueueHealth
  unfolding read_depth is_queue_enabled
  queue_health queue_ok =
      if is_queue_enabled rt
      then (if queue_ok
          then read_depth
          else pure (record { queue_ok = false; queue_status = "unavailable"; queue_depth = none }))
      else pure (record { queue_ok = queue_ok; queue_status = "disabled"; queue_depth = none })

  unfoldable pub health_answer : Bool → QueueHealth → Action HealthOut
  unfolding is_queue_enabled
  health_answer db_ok q =
      if not db_ok || (is_queue_enabled rt && not q.queue_ok)
      then throw (http 503 "Dependency unavailable")
      else pure (record {
        status = "ok";
        database = "ok";
        queue = q.queue_status;
        queue_depth = q.queue_depth;
        queue_backend = rt.settings.task_queue_backend;
        version = app_version;
      })

  -- GET /health, and GET /ready, which calls it.
  unfoldable pub health : Action HealthOut
  unfolding queue_health health_answer is_queue_enabled
  health = do
    db_ok ← ping_db
    pinged ← ping_queue rt
    record_metric (set_dependency_state "database" db_ok)
    q ← queue_health (is_yes pinged)
    record_metric (set_dependency_state "queue" (q.queue_ok || not (is_queue_enabled rt)))
    health_answer db_ok q

  -- One round of `_queue_metrics_poller`.
  unfoldable pub poll_queue_metrics : Action (Unit {0})
  poll_queue_metrics =
      try_except
        (except_unavailable
          (do get_queue_snapshot rt; record_metric (set_dependency_state "queue" true))
          (λ e. record_metric (set_dependency_state "queue" false)))
        (λ e. pure tt)

  -- The request id that `log_requests` uses: the header's, or a new one.
  unfoldable pub choose_request_id : Option String → String → String
  choose_request_id none fresh = fresh
  choose_request_id (some given) fresh = if str_eq given "" then fresh else given

  -- `log_requests` round a handler that answers with a status: the status and the value of the
  -- response's request id header. A handler that raises is counted as a 500 and raises on.
  unfoldable pub log_requests :
      String → String → Option String → (String → Action ℕ) → Action (ℕ × String)
  unfolding choose_request_id
  log_requests method path header call_next = do
    fresh ← gets (λ w. rt.str_of_uuid (rt.uuid4 w.history))
    let request_id = choose_request_id header fresh
    try_except
        (do
          status_code ← call_next request_id
          record_metric (record_http_request method path status_code)
          pure (status_code, request_id))
        (λ e. do record_metric (record_http_request method path 500); throw e)
