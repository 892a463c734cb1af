-- ===== src/System/Evolves.antt =====
-- Every action of the service changes the table by commits of System.Changes, whether it returns or
-- raises.
use webhook_ingestion_servic.Prelude.{
  ◌≡◌, refl, sym, subst, ◌∙◌, inl, inr, ℕ, ◌+◌, String, Bool, true, false, Option, none, some, List,
  ◌∷◌, ℤ, arith, Bool-cases,
}
use webhook_ingestion_servic.Json.{Fields}
use webhook_ingestion_servic.Events.{Uuid, Event}
use webhook_ingestion_servic.Runtime.{
  Runtime, World, Action, Outcome, ok, raise, Exn, db_execute, did, perform,
}
use webhook_ingestion_servic.Runtime.Rules.{Frame, Keeps, SameRows}
use webhook_ingestion_servic.Crud.{create_event, mark_events_pending}
use webhook_ingestion_servic.Crud.Insert.{
  new_event, Creates, create_event-Creates, mark_events_pending_rows,
}
use webhook_ingestion_servic.Processor.{
  simulate, failed_event, started, process_event, process_found, find_event, process_event_by_id,
}
use webhook_ingestion_servic.Processor.Lifecycle.{attempted, Settles, process_event-Settles}
use webhook_ingestion_servic.Processor.Rows.{id-find_event}
use webhook_ingestion_servic.System.Changes.{
  SameIdentity, Outcomes, Attempt, Change, inserted, written, reopened, Changes, unchanged, more,
  Changes-trans,
}

pub record Evolves (w v : World) : Type 0 where
  pub changes : Changes w.events v.events

pub Evolves-frame : Frame Evolves
Evolves-frame = record {
  here = λ w. record { changes = unchanged };
  chain = λ p q. record { changes = Changes-trans p.changes q.changes };
  metrics = λ w f. record { changes = unchanged };
}

same-Changes : (a b : List Event) → b ≡ a → Changes a b
same-Changes a b e = subst (λ l. Changes a l) (sym e) unchanged

pub Evolves-of_SameRows {ℓ} : {A : Type ℓ} (m : Action A) → Keeps SameRows m → Keeps Evolves m
Evolves-of_SameRows m k = record { at = λ w. record { changes = same-Changes _ _ (k.at w).events } }

-- Where one change was made, or none.
one-Changes : (a b : List Event) → Change a b → Changes a b
one-Changes a b c = more unchanged c

module _ (rt : Runtime) where
  Creates-Changes :
      (delivery_id request_id : Option String) (source event_type : String) (payload : Fields)
      (w : World) (p : Outcome Event × World)
      → Creates rt delivery_id request_id source event_type payload w p
      → Changes w.events p.1.events
  Creates-Changes delivery_id request_id source event_type payload w (ok e, v) (is, free, rows) =
      one-Changes _ _ (
        inserted (new_event rt delivery_id request_id source event_type payload w)
          (record { is_pending = refl; untried = refl; unended = refl; flawless = refl }) free rows)
  Creates-Changes delivery_id request_id source event_type payload w (raise x, v) (kind, inl rows) =
      same-Changes _ _ rows
  Creates-Changes delivery_id request_id source event_type payload w (raise x, v)
        (kind, inr (free, rows)) =
      one-Changes _ _ (
        inserted (new_event rt delivery_id request_id source event_type payload w)
          (record { is_pending = refl; untried = refl; unended = refl; flawless = refl }) free rows)

  pub create_event-Evolves :
      (delivery_id request_id : Option String) (source event_type : String) (payload : Fields)
      → Keeps Evolves (create_event rt delivery_id request_id source event_type payload)
  create_event-Evolves delivery_id request_id source event_type payload = record {
    at = λ w. record {
      changes =
          Creates-Changes delivery_id request_id source event_type payload w _
            (create_event-Creates rt delivery_id request_id source event_type payload w);
    };
  }

  pub mark_events_pending-Evolves : (ids : List Uuid) → Keeps Evolves (mark_events_pending rt ids)
  mark_events_pending-Evolves ids = record {
    at = λ w. record {
      changes = elim (mark_events_pending_rows rt ids w) [
        | inl (_, rows) ↦ one-Changes _ _ (reopened ids rows)
        | inr (_, rows) ↦ same-Changes _ _ rows
      ];
    };
  }

  -- The simulated work touches no identity, and sets the status and its fields together.
  simulate_same :
      (now : ℕ) (e : Event) (r : Outcome ℤ)
      → SameIdentity e (simulate rt now (started rt e) r).0
        × ((simulate rt now (started rt e) r).0.processing_attempts ≡ e.processing_attempts + 1)
  unfolding simulate started
  simulate_same now e (raise x) = ground arith
  simulate_same now e (ok n) = ground arith

  simulate_done :
      (now : ℕ) (e : Event) (r : Outcome ℤ)
      → let p = simulate rt now (started rt e) r in
        p.1 ≡ ok tt → Outcomes p.0.processing_status p.0.processed_at p.0.error_message
  unfolding simulate started
  simulate_done now e (raise x) h = cc
  simulate_done now e (ok n) h = ground arith

  Attempt-done :
      (now : ℕ) (e : Event) (r : Outcome ℤ)
      → (simulate rt now (started rt e) r).1 ≡ ok tt
      → Attempt e (simulate rt now (started rt e) r).0
  Attempt-done now e r h =
      let (same, counted) = simulate_same now e r in
      record { same = same; counted = counted; left = simulate_done now e r h }

  failed_event-Outcomes :
      (e : Event) (final_attempt : Bool) (x : Exn)
      → let f = failed_event rt e final_attempt x in
        Outcomes f.processing_status f.processed_at f.error_message
  unfolding failed_event
  failed_event-Outcomes e true x = (refl, refl)
  failed_event-Outcomes e false x = (refl, refl)

  failed_event-SameIdentity :
      (e s : Event) (final_attempt : Bool) (x : Exn)
      → SameIdentity e s
      → SameIdentity e (failed_event rt s final_attempt x)
  unfolding failed_event
  failed_event-SameIdentity e s final_attempt x h = record {
    id_eq = h.id_eq;
    delivery_eq = h.delivery_eq;
    request_eq = h.request_eq;
    source_eq = h.source_eq;
    type_eq = h.type_eq;
    received_eq = h.received_eq;
  }

  failed_event-attempts :
      (s : Event) (final_attempt : Bool) (x : Exn)
      → (failed_event rt s final_attempt x).processing_attempts ≡ s.processing_attempts
  unfolding failed_event
  failed_event-attempts s final_attempt x = refl

  Attempt-failed :
      (now : ℕ) (e : Event) (r : Outcome ℤ) (final_attempt : Bool) (x : Exn)
      → Attempt e (failed_event rt (simulate rt now (started rt e) r).0 final_attempt x)
  Attempt-failed now e r final_attempt x =
      let (same, counted) = simulate_same now e r in
      let s = (simulate rt now (started rt e) r).0 in
      record {
        same = failed_event-SameIdentity e s final_attempt x same;
        counted = failed_event-attempts s final_attempt x ∙ counted;
        left = failed_event-Outcomes s final_attempt x;
      }

  Settles-Changes :
      (e : Event) (final_attempt : Bool) (u : World) (q : Outcome Bool × World)
      → find_event e.id u.events ≡ some e
      → Settles rt final_attempt (attempted rt u e) u q
      → Changes u.events q.1.events
  Settles-Changes e final_attempt u (ok true, v) found (done, rows) =
      one-Changes _ _ (written e _ found (Attempt-done _ e _ done) rows)
  Settles-Changes e final_attempt u (ok false, v) found (x, why, rows) =
      one-Changes _ _ (written e _ found (Attempt-failed _ e _ final_attempt x) rows)
  Settles-Changes e final_attempt u (raise x, v) found rows = same-Changes _ _ rows

  found-Changes :
      (i : Uuid) (final_attempt : Bool) (u : World) (found : Option Event)
      → find_event i u.events ≡ found
      → Changes u.events (process_found rt found final_attempt u).1.events
  unfolding process_found
  found-Changes i final_attempt u none was = unchanged
  found-Changes i final_attempt u (some e) was =
      Settles-Changes e final_attempt u (process_event rt e final_attempt u)
        (subst (λ j. find_event j u.events ≡ some e) (sym (id-find_event i e u.events was)) was)
        (process_event-Settles rt e final_attempt u)

  pub process_event_by_id-Evolves :
      (i : Uuid) (final_attempt : Bool) → Keeps Evolves (process_event_by_id rt i final_attempt)
  unfolding process_event_by_id perform
  process_event_by_id-Evolves i final_attempt = record {
    at = λ w. record {
      changes = elim (Bool-cases (rt.fails w.history db_execute)) [
        | inl down ↦ rw down unchanged
        | inr up ↦ rw up (
            found-Changes i final_attempt (record w { history = did db_execute ∷ w.history })
              (find_event i w.events) refl)
      ];
    };
  }
