-- ===== src/Processor/Others.antt =====
-- The rows that `process_event_by_id` of app/services/processor.py leaves alone.
use webhook_ingestion_servic.Prelude.{
  ◌≡◌, ◌≢◌, refl, sym, ◌∙◌, Bool, Option, none, some, inl, inr, Bool-cases, arith,
}
use webhook_ingestion_servic.Events.{Uuid, Event}
use webhook_ingestion_servic.Runtime.{
  Runtime, World, Outcome, ok, raise, Exn, Call, db_execute, perform,
}
use webhook_ingestion_servic.Runtime.Rules.{Frame, Keeps, frame_rules}
use webhook_ingestion_servic.Crud.{overwrite}
use webhook_ingestion_servic.Processor.{
  simulate, save_event, failed_event, record_failure, record_success, settle, started,
  failures_json, process_event, process_found, find_event, process_event_by_id,
}
use webhook_ingestion_servic.Processor.Rows.{
  id-find_event, find_event-overwrite_ne, simulate-Simulates,
}
use webhook_ingestion_servic.Queue.Payload.{int_of_json}

-- A reader finds the same row under the id.
record SameRow (j : Uuid) (w v : World) : Type 0 where
  pub row_eq : find_event j v.events ≡ find_event j w.events

module _ (j : Uuid) where
  SameRow-frame : Frame (SameRow j)
  SameRow-frame = record {
    here = λ w. record { row_eq = refl };
    chain = λ p q. record { row_eq = q.row_eq ∙ p.row_eq };
    metrics = λ w f. record { row_eq = refl };
  }

  module _ (rt : Runtime) where
    perform-SameRow : (c : Call) → Keeps (SameRow j) (perform rt c)
    unfolding perform
    perform-SameRow c = record { at = λ w. record { row_eq = ground arith } }

    overwrite-SameRow :
        (e : Event)
        → e.id ≢ j
        → (w : World) → SameRow j w (record w { events = overwrite e w.events })
    overwrite-SameRow e other w = record { row_eq = find_event-overwrite_ne j e w.events other }

    save_event-SameRow : (e : Event) → e.id ≢ j → Keeps (SameRow j) (save_event rt e)
    unfolding save_event
    save_event-SameRow e other =
        search (frame_rules, SameRow-frame, perform-SameRow, overwrite-SameRow, other) depth 8

    record_failure-SameRow :
        (e : Event) (final_attempt : Bool) (x : Exn)
        → e.id ≢ j
        → Keeps (SameRow j) (record_failure rt e final_attempt x)
    unfolding record_failure failed_event
    record_failure-SameRow e final_attempt x other =
        search (frame_rules, SameRow-frame, save_event-SameRow, other) depth 8

    record_success-SameRow : (e : Event) → e.id ≢ j → Keeps (SameRow j) (record_success rt e)
    unfolding record_success
    record_success-SameRow e other =
        search (frame_rules, SameRow-frame, save_event-SameRow, other) depth 8

    settle-SameRow :
        (final_attempt : Bool) (p : Event × Outcome (Unit {0}))
        → p.0.id ≢ j
        → Keeps (SameRow j) (settle rt final_attempt p)
    unfolding settle
    settle-SameRow final_attempt (e, ok done) other =
        search (frame_rules, SameRow-frame, record_success-SameRow, record_failure-SameRow, other)
          depth 8
    settle-SameRow final_attempt (e, raise x) other = record_failure-SameRow e final_attempt x other

    process_event-SameRow :
        (e : Event) (final_attempt : Bool)
        → e.id ≢ j
        → Keeps (SameRow j) (process_event rt e final_attempt)
    unfolding process_event
    process_event-SameRow e final_attempt other = record {
      at = λ w.
          let failures = int_of_json rt (failures_json e.payload) in
          let s = simulate-Simulates rt (rt.now w.history) e failures in
          (settle-SameRow final_attempt (simulate rt (rt.now w.history) (started rt e) failures)
              (λ same. other (sym s.same_id ∙ same))).at
            w;
    }

    process_found-SameRow :
        (i : Uuid) (final_attempt : Bool) (w : World) (found : Option Event)
        → i ≢ j
        → find_event i w.events ≡ found
        → Keeps (SameRow j) (process_found rt found final_attempt)
    unfolding process_found
    process_found-SameRow i final_attempt w none other was = search (frame_rules, SameRow-frame)
    process_found-SameRow i final_attempt w (some e) other was =
        process_event-SameRow e final_attempt
          (λ same. other (sym (id-find_event i e w.events was) ∙ same))

-- Processing an event leaves the row of every other id alone, whatever the database does.
pub process_event_by_id_others :
    (rt : Runtime) (i j : Uuid) (final_attempt : Bool) (w : World)
    → i ≢ j
    → find_event j (process_event_by_id rt i final_attempt w).1.events ≡ find_event j w.events
unfolding process_event_by_id perform
process_event_by_id_others rt i j final_attempt w other =
    elim (Bool-cases (rt.fails w.history db_execute)) [
      | inl down ↦ rw down refl
      | inr up ↦
          rw up
            ((process_found-SameRow j rt i final_attempt w (find_event i w.events) other refl).at
              _).row_eq
    ]
