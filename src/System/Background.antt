-- ===== src/System/Background.antt =====
-- A delivery on the inline backend: from its acceptance (app/routers/webhooks.py) through the background
-- task of the request (app/services/processor.py).
use webhook_ingestion_servic.Prelude.{
  ◌⊎◌, inl, inr, ℕ, ◌+◌, ◌≡◌, ◌≢◌, refl, sym, ap, subst, ◌∙◌, String, Bool, true, false, some, [],
  ◌∷◌, ◌++◌,
}
use webhook_ingestion_servic.Events.{Uuid, Event, processed, failed}
use webhook_ingestion_servic.Runtime.{Runtime, World, Outcome, ok, raise, continue}
use webhook_ingestion_servic.Runtime.Calm.{IsCalm}
use webhook_ingestion_servic.Crud.Unique.{IsUnique}
use webhook_ingestion_servic.Queue.Topology.{is_queue_enabled}
use webhook_ingestion_servic.Processor.{find_event, process_event_by_id}
use webhook_ingestion_servic.Processor.Attempts.{
  HasRow, AsksNone, AsksFailure, Tried, process_event_by_id-Tried,
}
use webhook_ingestion_servic.Json.{Fields}
use webhook_ingestion_servic.Routes.{
  WebhookIn, HttpRequest, WebhookAccepted, accepted, receive_webhook, run_tasks,
}
use webhook_ingestion_servic.Routes.Accounts.{accepted_news}
use webhook_ingestion_servic.Routes.Inline.{Defers, receive_webhook-Defers}
use webhook_ingestion_servic.System.Stored.{accepted-Stored}

module _ (rt : Runtime) where
  -- The tasks returned, and the event was tried once.
  abbrev pub IsDone : Uuid → Fields → ℕ → Outcome (Unit {0}) × World → Type 0
  IsDone i payload attempts p =
      (p.0 ≡ ok tt)
      × ((AsksNone rt payload × HasRow i p.1 processed attempts)
          ⊎ (AsksFailure rt payload × HasRow i p.1 failed attempts))

  task_returned :
      (i : Uuid) (e : Event) (p : Outcome Bool × World)
      → Tried rt i true e p
      → IsDone i e.payload (e.processing_attempts + 1) (continue (λ _. run_tasks rt []) p.0 p.1)
  unfolding run_tasks
  task_returned i e (ok b, v) (inl (none, is, row)) = (refl, inl (none, row))
  task_returned i e (ok b, v) (inr (asks, is, row)) = (refl, inr (asks, row))
  task_returned i e (raise x, v) (inl (none, is, row)) = absurd (cc)
  task_returned i e (raise x, v) (inr (asks, is, row)) = absurd (cc)

  task-IsDone :
      (i : Uuid) (e : Event) (w : World)
      → IsCalm rt
      → find_event i w.events ≡ some e
      → IsDone i e.payload (e.processing_attempts + 1) (run_tasks rt (i ∷ []) w)
  unfolding run_tasks
  task-IsDone i e w calm was =
      task_returned i e (process_event_by_id rt i true w)
        (process_event_by_id-Tried rt i true e w calm was)

  -- The inline backend, where no external call raises, from a process without background tasks and a
  -- table with unique keys. An accepted request, with any payload, leaves one background task, that of
  -- its event. When the tasks have run, they have returned, and the event was tried once: it is
  -- processed if its payload asks for no failure. It has failed if the payload forces one, asks for a
  -- positive number of failures, be it one, or gives a number that does not read as an integer.
  pub accepted-IsDone :
      (d : WebhookIn) (request : HttpRequest) (delivery : String) (w v : World)
      (a : WebhookAccepted)
      → is_queue_enabled rt ≡ false
      → receive_webhook rt d request w ≡ (ok a, v)
      → a.status ≡ accepted
      → request.header rt.settings.webhook_id_header ≡ some delivery
      → delivery ≢ ""
      → IsUnique w.events
      → w.background ≡ []
      → IsCalm rt
      → (v.background ≡ a.event_id ∷ [])
        × IsDone a.event_id d.payload 1 (run_tasks rt v.background v)
  accepted-IsDone d request delivery w v a off ran is header given unique idle calm =
      let s = accepted-Stored rt d request delivery w v a ran is header given unique in
      let added : v.background ≡ a.event_id ∷ [] =
        accepted_news (λ u. u.background) (λ i l. l ++ (i ∷ [])) w v a is
          (subst (Defers rt off w) ran (receive_webhook-Defers rt off d request w))
        ∙ ap (λ l. l ++ (a.event_id ∷ [])) idle in
      (
        added,
        subst (λ l. IsDone a.event_id d.payload 1 (run_tasks rt l v)) (sym added)
            (subst (λ f. IsDone a.event_id f 1 (run_tasks rt (a.event_id ∷ []) v)) s.has_payload
              (subst
                (λ n. IsDone a.event_id s.row.payload (n + 1) (run_tasks rt (a.event_id ∷ []) v))
                s.untried (task-IsDone a.event_id s.row v calm s.found))),
      )
