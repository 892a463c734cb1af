-- ===== src/Processor.antt =====
-- app/services/processor.py: the processing of one event and its lifecycle. Spans and log lines are
-- not modelled.
pub mod Lifecycle
pub mod Rows
pub mod Transient
pub mod Attempts
pub mod Others
use webhook_ingestion_servic.Prelude.{
  ℕ, ◌+◌, Bool, true, false, Option, none, some, List, [], ◌∷◌, ℤ, pos, ◌-ℤ◌, ltb_ℤ, ◌==◌,
  if◌then◌else◌,
}
use webhook_ingestion_servic.Json.{Json, num, Fields, get, set, truthy, is_true}
use webhook_ingestion_servic.Events.{Uuid, pending, processed, failed, Event}
use webhook_ingestion_servic.Metrics.{record_processing}
use webhook_ingestion_servic.Runtime.{
  Runtime, Action, Outcome, ok, raise, Exn, value_error, db_execute, db_commit, pure, gets, modify,
  record_metric, try_except, perform, ◌>>=◌, ◌>>◌,
}
use webhook_ingestion_servic.Queue.Payload.{int_of_json}
use webhook_ingestion_servic.Crud.{overwrite}

-- `payload.get("fail_attempts_remaining", 0) or 0`
unfoldable pub failures_json : Fields → Json
unfolding get truthy
failures_json payload = elim (get "fail_attempts_remaining" payload) [
  | none ↦ num (pos 0)
  | some v ↦ if truthy v then v else num (pos 0)
]

-- `payload.get("force_failure") is True`
unfoldable pub force_failure : Fields → Bool
unfolding get is_true
force_failure payload = elim (get "force_failure" payload) [ none ↦ false | some v ↦ is_true v ]

-- The row of an id, as `session.get` finds it.
unfoldable pub find_event : Uuid → List Event → Option Event
find_event i [] = none
find_event i (e ∷ rows) = if e.id == i then some e else find_event i rows

module _ (rt : Runtime) where
  -- The `try` block up to the commit, given the number of failures that the payload asks for: the
  -- event as it was left, and whether an exception was raised.
  unfoldable pub simulate : ℕ → Event → Outcome ℤ → Event × Outcome (Unit {0})
  unfolding force_failure set
  simulate now event (raise e) = (event, raise e)
  simulate now event (ok remaining_failures) =
      if ltb_ℤ (pos 0) remaining_failures
      then (
        record event {
          payload = set "fail_attempts_remaining" (num (remaining_failures -ℤ pos 1)) event.payload;
        },
        raise (value_error "Synthetic transient processing failure requested by payload"),
      )
      else if force_failure event.payload
      then (event, raise (value_error "Synthetic processing failure requested by payload"))
      else (
        record event {
          processing_status = processed;
          processed_at = some now;
          error_message = none;
        },
        ok tt,
      )

  -- The commit of the event's row.
  unfoldable pub save_event : Event → Action (Unit {0})
  unfolding perform overwrite
  save_event event = do
    perform rt db_commit
    modify (λ w. record w { events = overwrite event w.events })

  -- The row that the `except` block commits.
  unfoldable pub failed_event : Event → Bool → Exn → Event
  failed_event event final_attempt e = record event {
    processing_status = if final_attempt then failed else pending;
    processed_at = none;
    error_message = some (rt.describe e);
  }

  -- The `except` block.
  unfoldable pub record_failure : Event → Bool → Exn → Action Bool
  unfolding save_event failed_event
  record_failure event final_attempt e = do
    save_event (failed_event event final_attempt e)
    record_metric (record_processing event.source (if final_attempt then "failed" else "retry"))
    pure false

  unfoldable pub record_success : Event → Action Bool
  unfolding save_event
  record_success event = do
    save_event event
    record_metric (record_processing event.source "processed")
    pure true

  -- What follows the simulated work: a commit that raises ends in the `except` block too.
  unfoldable pub settle : Bool → Event × Outcome (Unit {0}) → Action Bool
  unfolding record_failure record_success
  settle final_attempt (event, raise e) = record_failure event final_attempt e
  settle final_attempt (event, ok done) =
      try_except (record_success event) (record_failure event final_attempt)

  unfoldable pub started : Event → Event
  started event = record event { processing_attempts = event.processing_attempts + 1 }

  unfoldable pub process_event : Event → Bool → Action Bool
  unfolding settle simulate started failures_json int_of_json
  process_event event final_attempt = do
    now ← gets (λ w. rt.now w.history)
    settle final_attempt
        (simulate now (started event) (int_of_json rt (failures_json event.payload)))

  -- An event that is not there counts as processed.
  unfoldable pub process_found : Option Event → Bool → Action Bool
  process_found none final_attempt = pure true
  process_found (some event) final_attempt = process_event event final_attempt

  unfoldable pub process_event_by_id : Uuid → Bool → Action Bool
  unfolding perform process_found find_event
  process_event_by_id event_id final_attempt = do
    perform rt db_execute
    rows ← gets (λ w. w.events)
    process_found (find_event event_id rows) final_attempt
