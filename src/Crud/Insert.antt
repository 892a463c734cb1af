-- ===== src/Crud/Insert.antt =====
-- What `create_event` and `mark_events_pending` of app/crud.py do to the table, for every result.
use webhook_ingestion_servic.Prelude.{
  ◌≡◌, refl, ap, sym, ◌⊎◌, inl, String, false, Option, none, List, [], ◌∷◌, ◌++◌, map, arith,
}
use webhook_ingestion_servic.Json.{Fields}
use webhook_ingestion_servic.Events.{Uuid, Event, pending}
use webhook_ingestion_servic.Runtime.{
  Runtime, World, Outcome, ok, raise, integrity_error, external, perform,
}
use webhook_ingestion_servic.Runtime.Rules.{Keeps, SameLog, log_rules}
use webhook_ingestion_servic.Crud.{
  violates, insert_event, create_event, mark_pending, mark_events_pending,
}

module _ (rt : Runtime) (delivery_id request_id : Option String) (source event_type : String)
    (payload : Fields) where
  -- The row that a request starts in the world `w`.
  abbrev pub new_event : World → Event
  new_event w = record {
    id = rt.uuid4 w.history;
    delivery_id = delivery_id;
    request_id = request_id;
    source = source;
    event_type = event_type;
    payload = payload;
    received_at = rt.now w.history;
    processing_status = pending;
    processing_attempts = 0;
    processed_at = none;
    error_message = none;
  }

  -- After a return the new row was free of conflicts and stands at the end of the table. Raised: a
  -- database error; the table is as before, or the new row was committed before the error.
  abbrev pub Creates : World → Outcome Event × World → Type 0
  Creates w (ok e, v) =
      (e ≡ new_event w)
      × (violates (new_event w) w.events ≡ false)
      × (v.events ≡ w.events ++ (new_event w ∷ []))
  Creates w (raise x, v) =
      ((x ≡ integrity_error) ⊎ (x ≡ external))
      × ((v.events ≡ w.events)
          ⊎ ((violates (new_event w) w.events ≡ false)
              × (v.events ≡ w.events ++ (new_event w ∷ []))))

  -- `create_event`, whatever the database does. If it returns, it returns the new row, which was free
  -- of conflicts and stands at the end of the table. If it raises, the error is IntegrityError or one
  -- of the database, and the table is as before or has the new row, free of conflicts, at its end.
  pub create_event-Creates :
      (w : World) → Creates w (create_event rt delivery_id request_id source event_type payload w)
  unfolding create_event insert_event perform
  create_event-Creates w = ground arith

module _ (rt : Runtime) where
  insert_event-SameLog : (e : Event) → Keeps SameLog (insert_event rt e)
  unfolding insert_event perform
  insert_event-SameLog e = record { at = λ w. record { log_eq = ground arith } }

  pub create_event-SameLog :
      (delivery_id request_id : Option String) (source event_type : String) (payload : Fields)
      → Keeps SameLog (create_event rt delivery_id request_id source event_type payload)
  unfolding create_event
  create_event-SameLog delivery_id request_id source event_type payload =
      search (log_rules, insert_event-SameLog) depth 10

  map-mark_pending_nil : (rows : List Event) → map (mark_pending []) rows ≡ rows
  unfolding mark_pending
  map-mark_pending_nil [] = refl
  map-mark_pending_nil (e ∷ rows) = ap (λ l. e ∷ l) (map-mark_pending_nil rows)

  -- The update of the pending rows is written whole, or the call raises and the table is as before.
  pub mark_events_pending_rows :
      (ids : List Uuid) (w : World)
      → let (r, v) = mark_events_pending rt ids w in
        ((r ≡ ok tt) × (v.events ≡ map (mark_pending ids) w.events))
        ⊎ ((r ≡ raise external) × (v.events ≡ w.events))
  unfolding mark_events_pending perform
  mark_events_pending_rows [] w = inl (refl, sym (map-mark_pending_nil w.events))
  mark_events_pending_rows (i ∷ ids) w = ground arith
