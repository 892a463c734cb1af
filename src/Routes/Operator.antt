-- ===== src/Routes/Operator.antt =====
-- The operator's endpoints of app/routers/webhooks.py: the retry of an event and the redrive of the
-- dead-letter queue.
use webhook_ingestion_servic.Prelude.{
  pos, ℕ, ◌≤◌, ◌≡◌, ◌≢◌, refl, sym, subst, ap, ◌∙◌, ◌⊎◌, inl, inr, false, Option, none, some, List,
  [], ◌∷◌, map, select, length, ℤ, arith, Bool-cases,
}
use webhook_ingestion_servic.Events.{Uuid, Event, ProcessingStatus, processed, same_status}
use webhook_ingestion_servic.Runtime.{
  Runtime, World, Outcome, ok, raise, external, db_execute, perform, pure, continue, ◌>>=◌, ◌>>◌,
}
use webhook_ingestion_servic.Runtime.Rules.{log, Keeps, SameLog, log_rules}
use webhook_ingestion_servic.Security.{require_api_key}
use webhook_ingestion_servic.Security.ApiKey.{require_api_key_unchanged}
use webhook_ingestion_servic.Crud
use webhook_ingestion_servic.Crud.{with_id, mark_pending, mark_events_pending, one_or_none}
use webhook_ingestion_servic.Crud.Insert.{mark_events_pending_rows}
use webhook_ingestion_servic.Queue.Consume.{redrive_dead_letter}
use webhook_ingestion_servic.Queue.Consume.Redrive.{
  Redriven, redrive_dead_letter-SameRows, redrive_dead_letter-Redriven,
}
use webhook_ingestion_servic.Routes.{
  HttpRequest, DlqRedriveOut, limit_query, schedule, retry_found, retry_event, redrive_page,
  redrive_dlq,
}
use webhook_ingestion_servic.Routes.Bounds.{limit_query_range}
use webhook_ingestion_servic.Routes.Intake.{schedule-SameRows}

module _ (rt : Runtime) where
  -- What the retry endpoint leaves behind.
  abbrev pub Retries : Uuid → World → Outcome Uuid × World → Type 0
  Retries i w (ok j, v) =
      ((e : Event) × (select (with_id i) w.events ≡ e ∷ [])
        × (e.processing_status ≢ processed)
        × (j ≡ e.id))
      × (v.events ≡ w.events)
  Retries i w (raise x, v) = v.events ≡ w.events

  scheduled :
      (i : Uuid) (w : World) (e : Event) (p : Outcome (Unit {0}) × World)
      → select (with_id i) w.events ≡ e ∷ []
      → e.processing_status ≢ processed
      → p.1.events ≡ w.events
      → Retries i w (continue (λ _. pure e.id) p.0 p.1)
  scheduled i w e (ok done, v) found unfinished same = ((e, found, unfinished, refl), same)
  scheduled i w e (raise x, v) found unfinished same = same

  retry_found-Retries :
      (i : Uuid) (w u : World) (e : Event)
      → select (with_id i) w.events ≡ e ∷ []
      → u.events ≡ w.events
      → Retries i w (retry_found rt (some e) u)
  unfolding retry_found
  retry_found-Retries i w u e found same =
      elim (Bool-cases (same_status e.processing_status processed)) [
        | inl finished ↦ rw finished same
        | inr unfinished ↦ rw unfinished (
            scheduled i w e (schedule rt e.id u) found
              (not_processed e.processing_status unfinished)
              (((schedule-SameRows rt e.id).at u).events ∙ same))
      ]
    where
      not_processed : (s : ProcessingStatus) → same_status s processed ≡ false → s ≢ processed
      not_processed s h e' = ground arith

  -- The rows that the lookup by id can give.
  looked_up :
      (i : Uuid) (w u : World) (rows : List Event)
      → select (with_id i) w.events ≡ rows
      → u.events ≡ w.events
      → Retries i w ((one_or_none rows >>= retry_found rt) u)
  unfolding one_or_none
  looked_up i w u [] found same = unfold retry_found in same
  looked_up i w u (e ∷ []) found same = retry_found-Retries i w u e found same
  looked_up i w u (e ∷ f ∷ rest) found same = same

  keyed :
      (i : Uuid) (w : World) (p : Outcome (Unit {0}) × World)
      → p.1 ≡ w
      → Retries i w
          (continue (λ _. do event ← Crud.get_event_by_id rt i; retry_found rt event) p.0 p.1)
  unfolding Crud.get_event_by_id perform
  keyed i w (ok done, v) same = elim (Bool-cases (rt.fails w.history db_execute)) [
    | inl down ↦ rw (same, down) refl
    | inr up ↦ rw (same, up) (looked_up i w _ (select (with_id i) w.events) refl refl)
  ]
  keyed i w (raise x, v) same = ap (λ (u : World). u.events) same

  -- POST /events/{event_id}/retry never writes to the table. It answers only where exactly one event
  -- has the id and that event is not processed, and then with the event's id.
  pub retry_event-Retries :
      (request : HttpRequest) (i : Uuid) (w : World) → Retries i w (retry_event rt request i w)
  unfolding retry_event
  retry_event-Retries request i w =
      keyed i w (require_api_key rt (request.header "X-API-KEY") w)
        (require_api_key_unchanged rt (request.header "X-API-KEY") w)

  -- The update of the rows is silent and comes after the redrive.
  mark_events_pending-SameLog : (ids : List Uuid) → Keeps SameLog (mark_events_pending rt ids)
  unfolding mark_events_pending
  mark_events_pending-SameLog [] = search log_rules
  mark_events_pending-SameLog (i ∷ ids) = search log_rules depth 10

  -- The answer lists the events that were put back, at most as many as the limit says, and their rows
  -- are marked.
  pub record Restores (limit : ℤ) (out : DlqRedriveOut) (w v : World) : Type 0 where
    pub asked : ℕ
    pub asks : limit ≡ pos asked
    pub bounded : asked ≤ 100
    pub counted : out.redriven_count ≡ length out.event_ids
    pub at_most : length out.event_ids ≤ asked
    pub redriven : Redriven rt out.event_ids (log w.history) (log v.history)
    pub rows : v.events ≡ map (mark_pending out.event_ids) w.events

  abbrev pub Redrives : ℤ → World → Outcome DlqRedriveOut × World → Type 0
  Redrives limit w (ok out, v) = Restores limit out w v
  Redrives limit w (raise x, v) = v.events ≡ w.events

  marked :
      (limit : ℤ) (n : ℕ) (ids : List Uuid) (w u : World) (p : Outcome (Unit {0}) × World)
      → limit ≡ pos n
      → n ≤ 100
      → length ids ≤ n
      → Redriven rt ids (log w.history) (log u.history)
      → u.events ≡ w.events
      → log p.1.history ≡ log u.history
      → ((p.0 ≡ ok tt) × (p.1.events ≡ map (mark_pending ids) u.events))
        ⊎ ((p.0 ≡ raise external) × (p.1.events ≡ u.events))
      → Redrives limit w
          (continue (λ _. pure (record { redriven_count = length ids; event_ids = ids })) p.0 p.1)
  marked limit n ids w u (ok done, v) asks few short put_back same silent (inl (returned, rows)) =
      record {
        asked = n;
        asks = asks;
        bounded = few;
        counted = refl;
        at_most = short;
        redriven = subst (λ l. Redriven rt ids (log w.history) l) (sym silent) put_back;
        rows = rows ∙ ap (map (mark_pending ids)) same;
      }
  marked limit n ids w u (ok done, v) asks few short put_back same silent (inr (raised, rows)) =
      absurd (cc)
  marked limit n ids w u (raise x, v) asks few short put_back same silent (inl (returned, rows)) =
      absurd (cc)
  marked limit n ids w u (raise x, v) asks few short put_back same silent (inr (raised, rows)) =
      rows ∙ same

  driven :
      (limit : ℤ) (n : ℕ) (w : World) (p : Outcome (List Uuid) × World)
      → rt.settings.task_queue_backend ≡ "rabbitmq"
      → limit ≡ pos n
      → n ≤ 100
      → redrive_dead_letter rt n w ≡ p
      → p.1.events ≡ w.events
      → Redrives limit w (
          continue
            (λ ids. do
              mark_events_pending rt ids
              pure (record { redriven_count = length ids; event_ids = ids }))
            p.0
            p.1)
  driven limit n w (ok ids, u) on asks few e same =
      let (short, put_back) = redrive_dead_letter-Redriven rt n ids w u on e in
      marked limit n ids w u (mark_events_pending rt ids u) asks few short put_back same
        (((mark_events_pending-SameLog ids).at u).log_eq) (mark_events_pending_rows rt ids u)
  driven limit n w (raise x, u) on asks few e same = same

  page :
      (limit : ℤ) (o : Option ℕ) (w : World)
      → rt.settings.task_queue_backend ≡ "rabbitmq"
      → ((n : ℕ) → o ≡ some n → (limit ≡ pos n) × (n ≤ 100))
      → Redrives limit w (redrive_page rt o w)
  unfolding redrive_page
  page limit none w on few = refl
  page limit (some n) w on few =
      driven limit n w (redrive_dead_letter rt n w) on (few n refl).0 (few n refl).1 refl
        ((redrive_dead_letter-SameRows rt n).at w).events

  admitted :
      (limit : ℤ) (w : World) (p : Outcome (Unit {0}) × World)
      → rt.settings.task_queue_backend ≡ "rabbitmq"
      → p.1 ≡ w
      → Redrives limit w (continue (λ _. redrive_page rt (limit_query limit)) p.0 p.1)
  admitted limit w (ok done, v) on same =
      subst (λ u. Redrives limit w (redrive_page rt (limit_query limit) u)) (sym same)
        (page limit (limit_query limit) w on
          (λ n h. let (a, b, c) = limit_query_range limit n h in (a, c)))
  admitted limit w (raise x, v) on same = ap (λ (u : World). u.events) same

  pub redrive_dlq-Redrives :
      (request : HttpRequest) (limit : ℤ) (w : World)
      → rt.settings.task_queue_backend ≡ "rabbitmq"
      → Redrives limit w (redrive_dlq rt request limit w)
  unfolding redrive_dlq
  redrive_dlq-Redrives request limit w on =
      admitted limit w (require_api_key rt (request.header "X-API-KEY") w) on
        (require_api_key_unchanged rt (request.header "X-API-KEY") w)
