-- ===== src/Worker.antt =====
-- app/worker.py: the worker's loop over the queue.
pub mod Delivery
pub mod Chain
pub mod Redis
pub mod Returns
pub mod Polls
pub mod Broker
pub mod Polling
pub mod Turns
pub mod Runs
pub mod Settles
pub mod Jobs
pub mod Drain
use webhook_ingestion_servic.Prelude.{
  ℕ, zero, suc, Bool, true, false, Option, none, some, leb_ℤ, if◌then◌else◌,
}
use webhook_ingestion_servic.Runtime.{Runtime, Action, runtime_error, pure, throw, ◌>>=◌, ◌>>◌}
use webhook_ingestion_servic.Queue.Topology.{is_queue_enabled}
use webhook_ingestion_servic.Queue.Consume.{
  QueueEnvelope, Route, dequeue_event, complete_event, retry_or_dead_letter,
}
use webhook_ingestion_servic.Processor.{process_event_by_id}

module _ (rt : Runtime) where
  -- `envelope.attempt >= settings.rabbitmq_max_delivery_attempts`
  unfoldable pub is_final : QueueEnvelope → Bool
  is_final envelope = leb_ℤ rt.settings.rabbitmq_max_delivery_attempts envelope.attempt

  -- How an envelope was dealt with: none for one that was completed.
  unfoldable pub finish : QueueEnvelope → Bool → Action (Option Route)
  finish envelope true = do complete_event rt envelope; pure none
  finish envelope false = do action ← retry_or_dead_letter rt envelope; pure (some action)

  -- The body of the loop, for an envelope.
  unfoldable pub handle_envelope : QueueEnvelope → Action (Option Route)
  unfolding finish is_final
  handle_envelope envelope = do
    processed ← process_event_by_id rt envelope.event_id (is_final envelope)
    finish envelope processed

  unfoldable pub handle_polled : Option QueueEnvelope → Action (Unit {0})
  handle_polled none = pure tt
  handle_polled (some envelope) = do handle_envelope envelope; pure tt

  -- One round of `while True`.
  unfoldable pub worker_round : Action (Unit {0})
  unfolding handle_polled
  worker_round = do envelope ← dequeue_event rt; handle_polled envelope

  -- So many rounds of the endless loop; an exception ends it.
  unfoldable pub worker_rounds : ℕ → Action (Unit {0})
  worker_rounds zero = pure tt
  worker_rounds (suc rounds) = do worker_round; worker_rounds rounds

  unfoldable pub run_worker : ℕ → Action (Unit {0})
  unfolding worker_rounds is_queue_enabled
  run_worker rounds =
      if is_queue_enabled rt
      then worker_rounds rounds
      else throw (runtime_error "Worker requires TASK_QUEUE_BACKEND=redis")
