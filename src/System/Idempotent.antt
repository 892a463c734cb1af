-- ===== src/System/Idempotent.antt =====
-- A delivery that is sent again to `receive_webhook` of app/routers/webhooks.py, at any later time.
use webhook_ingestion_servic.Prelude.{
  ◌≡◌, ◌≢◌, sym, subst, ap, ◌∙◌, inl, inr, String, some, List, select,
}
use webhook_ingestion_servic.Events.{Uuid, Event}
use webhook_ingestion_servic.Runtime.{Runtime, World, Outcome, ok}
use webhook_ingestion_servic.Crud.{with_delivery}
use webhook_ingestion_servic.Crud.Unique.{IsUnique}
use webhook_ingestion_servic.Processor.{find_event}
use webhook_ingestion_servic.Routes.{WebhookIn, HttpRequest, WebhookAccepted, receive_webhook}
use webhook_ingestion_servic.Routes.Intake.{Receives, receive_webhook-Receives}
use webhook_ingestion_servic.Routes.Redelivery.{
  IsServed, IgnoresDuplicate, known-IgnoresDuplicate, Stores-known,
}
use webhook_ingestion_servic.System.{Reaches, here, next}
use webhook_ingestion_servic.System.Changes.{Changes-keep}
use webhook_ingestion_servic.System.Keys.{Change-IsUnique, find_event-select, select-find_event}
use webhook_ingestion_servic.System.Soundness.{Step-Changes}
use webhook_ingestion_servic.System.Actions.{receive_webhook-Evolves}
use webhook_ingestion_servic.System.Kept.{Reaches-kept}

-- The table has unique keys, and a row of the delivery is found under the id.
record Holds (delivery : String) (i : Uuid) (rows : List Event) : Type 0 where
  row : Event
  row_id : row.id ≡ i
  found : find_event row.id rows ≡ some row
  held : row.delivery_id ≡ some delivery

Reaches-IsUnique : {w v : World} → Reaches w v → IsUnique w.events → IsUnique v.events
Reaches-IsUnique here u = u
Reaches-IsUnique (next r st) u =
    Changes-keep IsUnique Change-IsUnique (Step-Changes st) (Reaches-IsUnique r u)

module _ (rt : Runtime) (delivery : String) where
  answered :
      (d : WebhookIn) (request : HttpRequest) (w v : World) (a : WebhookAccepted)
      → IsUnique v.events
      → Receives rt d request delivery w (ok a, v)
      → Holds delivery a.event_id v.events
  answered d request w v a u (inl r) =
      let (found, held) =
        select-find_event delivery r.row v.events u
          (ap (select (with_delivery delivery)) r.kept ∙ r.known) in
      record { row = r.row; row_id = sym r.same_event; found = found; held = held }
  answered d request w v a u (inr r) =
      let (found, held) =
        select-find_event delivery r.stored.row v.events u
          (Stores-known rt delivery d request w v r.stored) in
      record { row = r.stored.row; row_id = sym r.new_id; found = found; held = held }

-- Once a request for a delivery was answered, every later request for that delivery is answered as a
-- duplicate of the same event: nothing is written and nothing is enqueued. Any operations of any
-- processes may lie between, with other settings and with failing calls: other deliveries, attempts on
-- the event, redrives. The table had unique keys before the first request, the delivery id is not
-- empty, and the later request names it, passes the signature check and can query the table.
pub receive_webhook-IsIdempotent :
    (rt rt' : Runtime) (delivery : String) (d d' : WebhookIn) (request request' : HttpRequest)
    (w v u : World) (a : WebhookAccepted)
    → delivery ≢ ""
    → IsUnique w.events
    → request.header rt.settings.webhook_id_header ≡ some delivery
    → receive_webhook rt d request w ≡ (ok a, v)
    → Reaches v u
    → IsServed rt' delivery request' u
    → IgnoresDuplicate rt' delivery a.event_id u (receive_webhook rt' d' request' u)
receive_webhook-IsIdempotent rt rt' delivery d d' request request' w v u a given unique named ran
      later s =
    let kept : IsUnique v.events =
      subst (λ (p : Outcome WebhookAccepted × World). IsUnique p.1.events) ran
        (Changes-keep IsUnique Change-IsUnique ((receive_webhook-Evolves rt d request).at w).changes
          unique) in
    let h = answered rt delivery d request w v a kept (
      subst (Receives rt d request delivery w) ran
        (receive_webhook-Receives rt d request delivery w named given unique)) in
    let now = Reaches-kept v u h.row h.found later in
    subst (λ i. IgnoresDuplicate rt' delivery i u (receive_webhook rt' d' request' u))
      (now.same.id_eq ∙ h.row_id)
      (known-IgnoresDuplicate rt' delivery d' request' now.row u given
        (find_event-select delivery now.row u.events (Reaches-IsUnique later kept)
          (subst (λ i. find_event i u.events ≡ some now.row) (sym now.same.id_eq) now.found)
          (now.same.delivery_eq ∙ h.held))
        s)
