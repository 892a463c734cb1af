-- ===== src/Crud.antt =====
-- app/crud.py: the queries and updates of the table `events`. A statement runs on the committed rows
-- of the world; a commit that raises writes nothing.
pub mod Unique
pub mod Reads
pub mod Insert
pub mod Summary
use webhook_ingestion_servic.Prelude.{
  ℕ, String, Bool, true, false, not, ◌&&◌, ◌||◌, Option, none, some, List, [], ◌∷◌, ◌++◌, map,
  length, take, drop, select, ◌==◌, str_eq, if◌then◌else◌,
}
use webhook_ingestion_servic.Json.{Fields}
use webhook_ingestion_servic.Events.{
  Uuid, ProcessingStatus, pending, processed, failed, same_status, Event,
}
use webhook_ingestion_servic.Metrics.{Series, inc, value, same_text}
use webhook_ingestion_servic.Runtime.{
  Runtime, World, Action, integrity_error, multiple_results, refused, db_execute, db_commit,
  db_refresh, db_rollback, raise, pure, throw, gets, modify, try_except, perform, ◌>>=◌, ◌>>◌,
}

-- Two rows hold the same delivery id. As in SQL, a missing one equals nothing.
abbrev pub same_delivery : Option String → Option String → Bool
same_delivery (some d) (some d') = str_eq d d'
same_delivery none d = false
same_delivery (some d) none = false

-- The primary key and the unique constraint on `delivery_id` of app/models.py.
unfoldable pub violates : Event → List Event → Bool
violates e [] = false
violates e (r ∷ rows) =
    (r.id == e.id || same_delivery r.delivery_id e.delivery_id) || violates e rows

-- The rows with `e` written over the row that has its id.
unfoldable pub overwrite : Event → List Event → List Event
overwrite e [] = []
overwrite e (r ∷ rows) = (if r.id == e.id then e else r) ∷ overwrite e rows

abbrev pub with_id : Uuid → Event → Bool
with_id i e = e.id == i

abbrev pub with_delivery : String → Event → Bool
with_delivery d e = same_delivery e.delivery_id (some d)

abbrev pub with_status : ProcessingStatus → Event → Bool
with_status s e = same_status s e.processing_status

abbrev pub with_source : String → Event → Bool
with_source s e = str_eq e.source s

unfoldable pub contains_id : List Uuid → Uuid → Bool
contains_id [] i = false
contains_id (j ∷ ids) i = j == i || contains_id ids i

-- `scalar_one_or_none`
unfoldable pub one_or_none : List Event → Action (Option Event)
one_or_none [] = pure none
one_or_none (e ∷ []) = pure (some e)
one_or_none (e ∷ f ∷ rest) = throw multiple_results

-- What `mark_events_pending` does to one row.
unfoldable pub mark_pending : List Uuid → Event → Event
unfolding contains_id
mark_pending ids e =
    if contains_id ids e.id && not (same_status e.processing_status processed)
    then record e { processing_status = pending; error_message = none; processed_at = none }
    else e

-- `select(key, count()).group_by(key)`, as the dictionary that the code makes of the rows.
unfoldable pub group_count : {K : Type 0} → (K → K → Bool) → (Event → K) → List Event → Series K
group_count same key [] = []
group_count same key (e ∷ rows) = inc (same (key e)) (key e) 1 (group_count same key rows)

pub record EventsSummary : Type 0 where
  pub total : ℕ
  pub pending : ℕ
  pub processed : ℕ
  pub failed : ℕ
  pub by_source : Series String

module _ (rt : Runtime) where
  -- The commit of one new row.
  unfoldable pub insert_event : Event → Action (Unit {0})
  unfolding violates perform
  insert_event e w =
      if violates e w.events
      then (raise integrity_error, record w { history = refused db_commit ∷ w.history })
      else (perform rt db_commit >> modify (λ v. record v { events = v.events ++ (e ∷ []) })) w

  unfoldable pub create_event :
      Option String → Option String → String → String → Fields → Action Event
  unfolding insert_event perform
  create_event delivery_id request_id source event_type payload = do
    id ← gets (λ w. rt.uuid4 w.history)
    now ← gets (λ w. rt.now w.history)
    let event : Event = record {
      id = id;
      delivery_id = delivery_id;
      request_id = request_id;
      source = source;
      event_type = event_type;
      payload = payload;
      received_at = now;
      processing_status = pending;
      processing_attempts = 0;
      processed_at = none;
      error_message = none;
    }
    try_except (do insert_event event; perform rt db_refresh)
        (λ e. do perform rt db_rollback; throw e)
    pure event

  -- The filter is a WHERE clause, so it applies before the order, the offset and the limit.
  unfoldable pub list_events : ℕ → ℕ → Option String → Action (List Event)
  unfolding perform
  list_events limit offset source = do
    perform rt db_execute
    rows ← gets (λ w. w.events)
    let wanted : List Event = elim source [
      | none ↦ rows
      | some s ↦ if str_eq s "" then rows else select (with_source s) rows
    ]
    pure (take limit (drop offset (rt.order_by_received_at_desc wanted)))

  unfoldable pub get_event_by_delivery_id : String → Action (Option Event)
  unfolding perform
  get_event_by_delivery_id delivery_id = do
    perform rt db_execute
    rows ← gets (λ w. w.events)
    one_or_none (select (with_delivery delivery_id) rows)

  unfoldable pub get_event_by_id : Uuid → Action (Option Event)
  unfolding perform
  get_event_by_id event_id = do
    perform rt db_execute
    rows ← gets (λ w. w.events)
    one_or_none (select (with_id event_id) rows)

  unfoldable pub get_events_summary : Action EventsSummary
  unfolding perform
  get_events_summary = do
    perform rt db_execute
    perform rt db_execute
    perform rt db_execute
    rows ← gets (λ w. w.events)
    let status_counts = group_count same_status (λ e. e.processing_status) rows
    let source_counts = group_count same_text (λ e. e.source) rows
    pure (record {
      total = length rows;
      pending = value (same_status ProcessingStatus.pending) status_counts;
      processed = value (same_status ProcessingStatus.processed) status_counts;
      failed = value (same_status ProcessingStatus.failed) status_counts;
      by_source = source_counts;
    })

  -- The update is written by the commit.
  unfoldable pub mark_events_pending : List Uuid → Action (Unit {0})
  unfolding perform
  mark_events_pending [] = pure tt
  mark_events_pending (i ∷ ids) = do
    perform rt db_execute
    perform rt db_commit
    modify (λ w. record w { events = map (mark_pending (i ∷ ids)) w.events })
