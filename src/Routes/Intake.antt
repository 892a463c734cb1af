-- ===== src/Routes/Intake.antt =====
-- What `receive_webhook` of app/routers/webhooks.py does to the table, and the idempotency of
-- deliveries.
use webhook_ingestion_servic.Prelude.{
  ◌≡◌, ◌≢◌, refl, ap, ◌∙◌, ◌⊎◌, inl, inr, String, Bool, false, Option, none, some, [], ◌∷◌, ◌++◌,
  ◌==◌, select, str_eq, eq_iff, arith,
}
use webhook_ingestion_servic.Events.{Uuid, Event, pending}
use webhook_ingestion_servic.Runtime.{
  Runtime, World, Outcome, ok, raise, Exn, http, integrity_error, external, pure, continue,
  record_metric, ◌>>=◌, ◌>>◌,
}
use webhook_ingestion_servic.Runtime.Rules.{Keeps, SameRows, rows_rules}
use webhook_ingestion_servic.Metrics.{record_webhook_intake}
use webhook_ingestion_servic.Security.{verify_webhook_signature}
use webhook_ingestion_servic.Security.Signature.{Refuses, verify_webhook_signature_effect}
use webhook_ingestion_servic.Crud.{with_delivery, get_event_by_delivery_id, create_event}
use webhook_ingestion_servic.Crud.Unique.{IsUnique}
use webhook_ingestion_servic.Crud.Insert.{new_event, Creates, create_event-Creates}
use webhook_ingestion_servic.Crud.Reads.{Finds, get_event_by_delivery_id-Finds}
use webhook_ingestion_servic.Queue.Consume.Frames.{enqueue_event-SameRows}
use webhook_ingestion_servic.Routes.{
  WebhookIn, HttpRequest, WebhookAccepted, accepted, duplicate, schedule, find_duplicate,
  accept_new, answer_duplicate, accept, receive_webhook,
}

module _ (rt : Runtime) where
  pub schedule-SameRows : (id : Uuid) → Keeps SameRows (schedule rt id)
  unfolding schedule
  schedule-SameRows id = search (rows_rules, enqueue_event-SameRows)

  module _ (d : WebhookIn) (request : HttpRequest) (delivery : String) where
    -- The row is that of the request, not yet processed.
    pub record IsNew (e : Event) : Type 0 where
      pub has_delivery : e.delivery_id ≡ some delivery
      pub has_request : e.request_id ≡ request.request_id
      pub has_source : e.source ≡ d.source
      pub has_type : e.event_type ≡ d.event_type
      pub has_payload : e.payload ≡ d.payload
      pub is_pending : e.processing_status ≡ pending
      pub untried : e.processing_attempts ≡ 0

    -- The delivery was unknown, and its row has been added at the end of the table.
    pub record Stores (w v : World) : Type 0 where
      pub row : Event
      pub is_new : IsNew row
      pub unknown : select (with_delivery delivery) w.events ≡ []
      pub added : v.events ≡ w.events ++ (row ∷ [])

    -- The delivery was known, and nothing was written.
    pub record Repeats (a : WebhookAccepted) (w v : World) : Type 0 where
      pub row : Event
      pub known : select (with_delivery delivery) w.events ≡ row ∷ []
      pub same_event : a.event_id ≡ row.id
      pub is_duplicate : a.status ≡ duplicate
      pub kept : v.events ≡ w.events

    pub record Accepts (a : WebhookAccepted) (w v : World) : Type 0 where
      pub stored : Stores w v
      pub new_id : a.event_id ≡ stored.row.id
      pub is_accepted : a.status ≡ accepted

    abbrev pub is_unavailable : Exn → Bool
    is_unavailable (http s text) = s == 503
    is_unavailable _ = false

    abbrev pub Receives : World → Outcome WebhookAccepted × World → Type 0
    Receives w (ok a, v) = Repeats a w v ⊎ Accepts a w v
    Receives w (raise x, v) = ((is_unavailable x ≡ false) × (v.events ≡ w.events)) ⊎ Stores w v

    abbrev row_of : World → Event
    row_of = new_event rt (some delivery) request.request_id d.source d.event_type d.payload

    row_of-IsNew : (u : World) → IsNew (row_of u)
    row_of-IsNew u = record {
      has_delivery = refl;
      has_request = refl;
      has_source = refl;
      has_type = refl;
      has_payload = refl;
      is_pending = refl;
      untried = refl;
    }

    stores :
        (w u v : World)
        → select (with_delivery delivery) w.events ≡ []
        → u.events ≡ w.events
        → v.events ≡ u.events ++ (row_of u ∷ [])
        → Stores w v
    stores w u v unknown same rows = record {
      row = row_of u;
      is_new = row_of-IsNew u;
      unknown = unknown;
      added = rows ∙ ap (λ l. l ++ (row_of u ∷ [])) same;
    }

    answered :
        (w u : World) (e : Event) (v : World) (p : Outcome (Unit {0}) × World)
        → select (with_delivery delivery) w.events ≡ []
        → u.events ≡ w.events
        → e ≡ row_of u
        → v.events ≡ u.events ++ (row_of u ∷ [])
        → p.1.events ≡ v.events
        → Receives w (
            continue
              (λ _. do
                record_metric (record_webhook_intake d.source "accepted")
                pure (record { status = accepted; event_id = e.id; delivery_id = e.delivery_id }))
              p.0
              p.1)
    unfolding stores
    answered w u e v (ok done, x) unknown same is_row rows kept = inr (record {
      stored = stores w u _ unknown same (kept ∙ rows);
      new_id = ap (λ (r : Event). r.id) is_row;
      is_accepted = refl;
    })
    answered w u e v (raise y, x) unknown same is_row rows kept =
        inr (stores w u _ unknown same (kept ∙ rows))

    -- From how the row was created to the answer.
    created :
        (w u : World) (p : Outcome Event × World)
        → select (with_delivery delivery) w.events ≡ []
        → u.events ≡ w.events
        → Creates rt (some delivery) request.request_id d.source d.event_type d.payload u p
        → Receives w (
            continue
              (λ e. do
                schedule rt e.id
                record_metric (record_webhook_intake d.source "accepted")
                pure (record { status = accepted; event_id = e.id; delivery_id = e.delivery_id }))
              p.0
              p.1)
    created w u (ok e, v) unknown same (is_row, free, rows) =
        answered w u e v (schedule rt e.id v) unknown same is_row rows
          ((schedule-SameRows e.id).at v).events
    created w u (raise x, v) unknown same (kind, inl kept) =
        inl (database_error x kind, kept ∙ same)
      where
        database_error :
            (y : Exn) → (y ≡ integrity_error) ⊎ (y ≡ external) → is_unavailable y ≡ false
        database_error y (inl e) = rw e
        database_error y (inr e) = rw e
    created w u (raise x, v) unknown same (kind, inr (free, rows)) =
        inr (stores w u v unknown same rows)

    -- From the lookup of the delivery to the answer.
    found :
        (w u : World) (p : Outcome (Option Event) × World)
        → u.events ≡ w.events
        → Finds delivery u p
        → Receives w (continue (accept rt d request (some delivery)) p.0 p.1)
    unfolding accept accept_new answer_duplicate
    found w u (ok none, v) same (unknown, kept) =
        created w v
          (create_event rt (some delivery) request.request_id d.source d.event_type d.payload v)
          (rw same at unknown) (kept ∙ same)
          (create_event-Creates rt (some delivery) request.request_id d.source d.event_type
            d.payload v)
    found w u (ok (some e), v) same (known, held, kept) = inl (record {
      row = e;
      known = rw same at known;
      same_event = refl;
      is_duplicate = refl;
      kept = kept ∙ same;
    })
    found w u (raise x, v) same (kind, kept) = inl (rw kind, kept ∙ same)

    -- From the signature check to the answer.
    verified :
        (w : World) (p : Outcome (Unit {0}) × World)
        → delivery ≢ ""
        → IsUnique w.events
        → Refuses rt w p
        → Receives w (
            continue
              (λ _. do
                existing ← find_duplicate rt (some delivery)
                accept rt d request (some delivery) existing)
              p.0
              p.1)
    unfolding find_duplicate
    verified w (ok done, v) given unique h =
        let nonempty : str_eq delivery "" ≡ false = ground (arith, eq_iff delivery "") in
        let same : v.events ≡ w.events = ap (λ (x : World). x.events) h in
        rw nonempty (
          found w v (get_event_by_delivery_id rt delivery v) same
            (get_event_by_delivery_id-Finds rt delivery v (rw same unique)))
    verified w (raise (http s text), v) given unique (status, h) =
        inl (rw status, ap (λ (x : World). x.events) h)
    verified w (raise x, v) given unique h = inl (refl, ap (λ (x : World). x.events) h)

    -- A request with a delivery id, on a table with unique keys, whatever the broker and the database
    -- do. If it is answered, the delivery was known, the answer names its event and nothing was
    -- written; or it was unknown, and one pending row with the request's data was added, which the
    -- answer names. If it raises, the table is as before or that row was added; where the queue is
    -- unavailable (503), it always was.
    pub receive_webhook-Receives :
        (w : World)
        → request.header rt.settings.webhook_id_header ≡ some delivery
        → delivery ≢ ""
        → IsUnique w.events
        → Receives w (receive_webhook rt d request w)
    unfolding receive_webhook
    receive_webhook-Receives w named given unique =
        let timestamp = request.header rt.settings.webhook_timestamp_header in
        let signature = request.header rt.settings.webhook_signature_header in
        rw named (
          verified w (verify_webhook_signature rt request.body timestamp signature w) given unique
            (verify_webhook_signature_effect rt request.body timestamp signature w))
