-- ===== src/Queue/Consume/Redis.antt =====
-- What `enqueue_event` of app/queue.py pushes on Redis.
use webhook_ingestion_servic.Prelude.{String, ◌≡◌, ℤ, arith}
use webhook_ingestion_servic.Events.{Uuid}
use webhook_ingestion_servic.Runtime.{
  Runtime, World, Action, Outcome, ok, raise, Exn, throw, try_except, queue_unavailable, rpush,
  perform,
}
use webhook_ingestion_servic.Runtime.Rules.{Entry, pushed}
use webhook_ingestion_servic.Queue.Topology.Frames.{get_queue_client-SameLog}
use webhook_ingestion_servic.Queue.Consume.{send_event, enqueue_event}
use webhook_ingestion_servic.Queue.Consume.Reroute.{Tells, Tells-bind}

-- Turning one exception into another tells the broker nothing.
try-Tells :
    {A : Type 0} (e : Entry) (x : Exn) (w : World) (m : Action A)
    → Tells e w (m w)
    → Tells e w (try_except m (λ _. throw x) w)
try-Tells {A} e x w m h = go (m w) h
  where
    go : (p : Outcome A × World) → Tells e w p → Tells e w (try_except (λ _. p) (λ _. throw x) w)
    go (ok a, v) h' = h'
    go (raise y, v) h' = h'

module _ (rt : Runtime) where
  rpush-Tells :
      (key value : String) (w : World) → Tells (pushed key value) w (perform rt (rpush key value) w)
  unfolding perform
  rpush-Tells key value w = ground arith

  send_event-Tells :
      (event_id : Uuid) (attempt : ℤ) (w : World)
      → rt.settings.task_queue_backend ≡ "redis"
      → Tells
          (pushed rt.settings.event_queue_name (rt.str_of_uuid event_id))
          w
          (send_event rt event_id attempt w)
  unfolding send_event
  send_event-Tells event_id attempt w on = simp on (
      Tells-bind (pushed rt.settings.event_queue_name (rt.str_of_uuid event_id)) _ _ w
        (get_queue_client-SameLog rt)
        λ _ u. rpush-Tells rt.settings.event_queue_name (rt.str_of_uuid event_id) u)

  -- On Redis, `enqueue_event` pushes the id of the event once, without its attempt, or raises and has
  -- pushed nothing.
  pub enqueue_event-Tells :
      (event_id : Uuid) (attempt : ℤ) (w : World)
      → rt.settings.task_queue_backend ≡ "redis"
      → Tells
          (pushed rt.settings.event_queue_name (rt.str_of_uuid event_id))
          w
          (enqueue_event rt event_id attempt w)
  unfolding enqueue_event
  enqueue_event-Tells event_id attempt w on =
      try-Tells (pushed rt.settings.event_queue_name (rt.str_of_uuid event_id))
        (queue_unavailable "Failed to enqueue event") w (send_event rt event_id attempt)
        (send_event-Tells event_id attempt w on)
