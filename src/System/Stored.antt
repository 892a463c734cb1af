-- ===== src/System/Stored.antt =====
-- The row that an accepted request to `receive_webhook` of app/routers/webhooks.py leaves.
use webhook_ingestion_servic.Prelude.{
  ◌≡◌, ◌≢◌, sym, subst, inl, inr, String, false, some, List, [], ◌∷◌, ◌++◌, ◌==◌, arith,
}
use webhook_ingestion_servic.Events.{Uuid, Event}
use webhook_ingestion_servic.Runtime.{Runtime, World, Outcome, ok}
use webhook_ingestion_servic.Crud.{violates}
use webhook_ingestion_servic.Crud.Unique.{IsUnique}
use webhook_ingestion_servic.Processor.{find_event}
use webhook_ingestion_servic.Routes.{
  WebhookIn, HttpRequest, WebhookAccepted, accepted, receive_webhook,
}
use webhook_ingestion_servic.Routes.Intake.{Receives, receive_webhook-Receives}
use webhook_ingestion_servic.System.Changes.{Changes-keep}
use webhook_ingestion_servic.System.Keys.{Change-IsUnique}
use webhook_ingestion_servic.System.Actions.{receive_webhook-Evolves}

-- The last of rows with unique keys is found under its id.
other_id :
    (r e : Event) (rows : List Event) → violates r (rows ++ (e ∷ [])) ≡ false → r.id == e.id ≡ false
unfolding violates
other_id r e [] h = ground arith
other_id r e (x ∷ rows) h = ground (arith, other_id r e rows)

find_event-last :
    (e : Event) (rows : List Event)
    → IsUnique (rows ++ (e ∷ []))
    → find_event e.id (rows ++ (e ∷ [])) ≡ some e
unfolding find_event
find_event-last e [] u = ground arith
find_event-last e (r ∷ rows) (free, u) = rw (other_id r e rows free) (find_event-last e rows u)

-- What an accepted delivery leaves in the table.
pub record Stored (d : WebhookIn) (i : Uuid) (v : World) : Type 0 where
  pub row : Event
  pub found : find_event i v.events ≡ some row
  pub has_payload : row.payload ≡ d.payload
  pub untried : row.processing_attempts ≡ 0

module _ (rt : Runtime) (d : WebhookIn) (request : HttpRequest) (delivery : String) where
  stores-Stored :
      (w v : World) (a : WebhookAccepted)
      → a.status ≡ accepted
      → IsUnique v.events
      → Receives rt d request delivery w (ok a, v)
      → Stored d a.event_id v
  stores-Stored w v a is unique (inl repeats) = let again = repeats.is_duplicate in absurd (cc)
  stores-Stored w v a is unique (inr stores) = record {
    row = stores.stored.row;
    found =
        subst (λ i. find_event i v.events ≡ some stores.stored.row) (sym stores.new_id)
          (subst (λ l. find_event stores.stored.row.id l ≡ some stores.stored.row)
            (sym stores.stored.added)
            (find_event-last stores.stored.row w.events
              (subst IsUnique stores.stored.added unique)));
    has_payload = stores.stored.is_new.has_payload;
    untried = stores.stored.is_new.untried;
  }

  pub accepted-Stored :
      (w v : World) (a : WebhookAccepted)
      → receive_webhook rt d request w ≡ (ok a, v)
      → a.status ≡ accepted
      → request.header rt.settings.webhook_id_header ≡ some delivery
      → delivery ≢ ""
      → IsUnique w.events
      → Stored d a.event_id v
  accepted-Stored w v a ran is header given unique =
      let kept : IsUnique v.events =
        subst (λ (p : Outcome WebhookAccepted × World). IsUnique p.1.events) ran
          (Changes-keep IsUnique Change-IsUnique
            ((receive_webhook-Evolves rt d request).at w).changes unique) in
      stores-Stored w v a is kept (
        subst (Receives rt d request delivery w) ran
          (receive_webhook-Receives rt d request delivery w header given unique))
