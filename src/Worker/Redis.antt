-- ===== src/Worker/Redis.antt =====
-- What a round of the worker of app/worker.py does with an event taken from Redis.
use webhook_ingestion_servic.Prelude.{
  ◌≡◌, refl, ◌∙◌, ap, ◌⊎◌, inl, inr, Bool, true, false, Option, none, some, ◌∷◌, pos, ◌≤ℤ◌, arith,
}
use webhook_ingestion_servic.Events.{Uuid, processed, pending, Event}
use webhook_ingestion_servic.Runtime.{Runtime, World, Outcome, ok, raise, pure, continue}
use webhook_ingestion_servic.Runtime.Rules.{Entry, pushed, log}
use webhook_ingestion_servic.Queue.Consume.{
  QueueEnvelope, Route, retry, enqueue_event, complete_event, complete_message,
  retry_or_dead_letter,
}
use webhook_ingestion_servic.Queue.Consume.Reroute.{Tells}
use webhook_ingestion_servic.Queue.Consume.Redis.{enqueue_event-Tells}
use webhook_ingestion_servic.Queue.Consume.Frames.{enqueue_event-SameRows}
use webhook_ingestion_servic.Processor.{find_event, process_event_by_id}
use webhook_ingestion_servic.Processor.Lifecycle.{process_event_by_id-SameLog}
use webhook_ingestion_servic.Processor.Rows.{Processes, process_event_by_id-Processes}
use webhook_ingestion_servic.Worker.{is_final, finish, handle_envelope}

-- An envelope as `dequeue_event` makes it from Redis: always a first attempt.
abbrev pub from_redis : Uuid → QueueEnvelope
from_redis event_id = record { event_id = event_id; attempt = pos 1; raw_message = none }

module _ (rt : Runtime) (event_id : Uuid) where
  -- The entry that puts the event back.
  abbrev pub requeued : Entry
  requeued = pushed rt.settings.event_queue_name (rt.str_of_uuid event_id)

  abbrev pub Requeues : World → Outcome (Option Route) × World → Type 0
  Requeues w (ok none, v) =
      (log v.history ≡ log w.history)
      × ((find_event event_id v.events ≡ none)
          ⊎ ((e : Event) × (find_event event_id v.events ≡ some e)
              × (e.processing_status ≡ processed)))
  Requeues w (ok (some route), v) =
      (route ≡ retry)
      × (log v.history ≡ requeued ∷ log w.history)
      × ((e : Event) × (find_event event_id v.events ≡ some e) × (e.processing_status ≡ pending))
  Requeues w (raise x, v) = log v.history ≡ log w.history

  -- From the push to the result of the round.
  pushed_back :
      (w u : World) (e : Event) (p : Outcome (Unit {0}) × World)
      → find_event event_id p.1.events ≡ some e
      → e.processing_status ≡ pending
      → log u.history ≡ log w.history
      → Tells requeued u p
      → Requeues w (
          continue
            (λ action. pure (some action))
            (continue (λ _. pure retry) p.0 p.1).0
            (continue (λ _. pure retry) p.0 p.1).1)
  pushed_back w u e (ok done, v) found open_again same h =
      (refl, h ∙ ap (λ l. requeued ∷ l) same, (e, found, open_again))
  pushed_back w u e (raise x, v) found open_again same h = h ∙ same

  retried :
      (w u : World) (e : Event)
      → rt.settings.task_queue_backend ≡ "redis"
      → find_event event_id u.events ≡ some e
      → e.processing_status ≡ pending
      → log u.history ≡ log w.history
      → Requeues w (finish rt (from_redis event_id) false u)
  unfolding finish retry_or_dead_letter
  retried w u e on found open_again same = simp on (
      pushed_back w u e (enqueue_event rt event_id (pos 1) u)
        (ap (find_event event_id) ((enqueue_event-SameRows rt event_id (pos 1)).at u).events
          ∙ found)
        open_again same (enqueue_event-Tells rt event_id (pos 1) u on))

  first_attempt :
      pos 2 ≤ℤ rt.settings.rabbitmq_max_delivery_attempts
      → is_final rt (from_redis event_id) ≡ false
  unfolding is_final
  first_attempt many = ground arith

  finished :
      (w : World) (p : Outcome Bool × World)
      → rt.settings.task_queue_backend ≡ "redis"
      → log p.1.history ≡ log w.history
      → Processes rt event_id false w p
      → Requeues w (continue (finish rt (from_redis event_id)) p.0 p.1)
  unfolding finish complete_event complete_message
  finished w (ok true, u) on same (inl (unknown, kept)) =
      (same, inl (ap (find_event event_id) kept ∙ unknown))
  finished w (ok true, u) on same (inr c) = (same, inr (c.after, c.is, c.has_status))
  finished w (ok false, u) on same c = retried w u c.after on c.is c.has_status same
  finished w (raise x, u) on same h = same

  -- A round of the worker with an event from Redis, where more than one attempt is allowed, whatever
  -- Redis and the database do. If it returns, the event is processed or unknown and nothing was pushed,
  -- or its row is pending and its id was pushed once, without an attempt. If it raises, nothing was
  -- pushed back.
  pub handle_envelope-Requeues :
      (w : World)
      → rt.settings.task_queue_backend ≡ "redis"
      → pos 2 ≤ℤ rt.settings.rabbitmq_max_delivery_attempts
      → Requeues w (handle_envelope rt (from_redis event_id) w)
  unfolding handle_envelope
  handle_envelope-Requeues w on many = rw (first_attempt many) (
      finished w (process_event_by_id rt event_id false w) on
        ((process_event_by_id-SameLog rt event_id false).at w).log_eq
        (process_event_by_id-Processes rt event_id false w))
