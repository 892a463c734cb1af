-- ===== src/Processor/Rows.antt =====
-- What `process_event_by_id` of app/services/processor.py does to the table, for every result.
use webhook_ingestion_servic.Prelude.{
  ℕ, ◌+◌, ◌≡◌, ◌≢◌, refl, ◌∙◌, ◌⊎◌, inl, inr, Bool, true, false, Option, none, some, List, [], ◌∷◌,
  is_some, ℤ, if◌then◌else◌, arith, Bool-cases,
}
use webhook_ingestion_servic.Events.{Uuid, ProcessingStatus, pending, processed, failed, Event}
use webhook_ingestion_servic.Runtime.{
  Runtime, World, Outcome, ok, raise, Exn, did, db_execute, perform,
}
use webhook_ingestion_servic.Crud.{overwrite}
use webhook_ingestion_servic.Processor.{
  simulate, failed_event, started, process_event, process_found, find_event, process_event_by_id,
}
use webhook_ingestion_servic.Processor.Lifecycle.{attempted, Settles, process_event-Settles}

-- Found rows have the id that was asked for.
pub id-find_event :
    (i : Uuid) (e : Event) (rows : List Event) → find_event i rows ≡ some e → e.id ≡ i
unfolding find_event
id-find_event i e [] h = cc
id-find_event i e (r ∷ rows) h = ground (arith, id-find_event i e rows)

pub find_event-overwrite_self :
    (i : Uuid) (e e' : Event) (rows : List Event)
    → find_event i rows ≡ some e
    → e'.id ≡ i
    → find_event i (overwrite e' rows) ≡ some e'
unfolding find_event overwrite
find_event-overwrite_self i e e' [] h same = cc
find_event-overwrite_self i e e' (r ∷ rows) h same =
    ground (arith, find_event-overwrite_self i e e' rows)

pub find_event-overwrite_ne :
    (i : Uuid) (e' : Event) (rows : List Event)
    → e'.id ≢ i
    → find_event i (overwrite e' rows) ≡ find_event i rows
unfolding find_event overwrite
find_event-overwrite_ne i e' [] other = refl
find_event-overwrite_ne i e' (r ∷ rows) other =
    ground (arith, find_event-overwrite_ne i e' rows other)

module _ (rt : Runtime) where
  -- What the simulated work leaves: the same event, and a processed one if nothing was raised.
  pub record Simulates (e : Event) (p : Event × Outcome (Unit {0})) : Type 0 where
    pub same_id : p.0.id ≡ e.id
    pub attempts : p.0.processing_attempts ≡ e.processing_attempts + 1
    pub status : p.1 ≡ ok tt → p.0.processing_status ≡ processed
    pub finished : p.1 ≡ ok tt → is_some p.0.processed_at ≡ true
    pub clean : p.1 ≡ ok tt → p.0.error_message ≡ none

  pub simulate-Simulates :
      (now : ℕ) (e : Event) (r : Outcome ℤ) → Simulates e (simulate rt now (started rt e) r)
  unfolding simulate started
  simulate-Simulates now e (raise x) = record {
    same_id = refl;
    attempts = refl;
    status = λ h. cc;
    finished = λ h. cc;
    clean = λ h. cc;
  }
  simulate-Simulates now e (ok n) = record {
    same_id = ground arith;
    attempts = ground arith;
    status = λ h. ground arith;
    finished = λ h. ground arith;
    clean = λ h. ground arith;
  }

  module _ (i : Uuid) (final_attempt : Bool) (w : World) where
    -- The row of the event afterwards, if it was there: counted, and in the state that the result
    -- stands for.
    pub record Counted (v : World) (status : ProcessingStatus) (ended failing : Bool) : Type 0 where
      pub before : Event
      pub after : Event
      pub was : find_event i w.events ≡ some before
      pub is : find_event i v.events ≡ some after
      pub attempts : after.processing_attempts ≡ before.processing_attempts + 1
      pub has_status : after.processing_status ≡ status
      pub has_end : is_some after.processed_at ≡ ended
      pub has_error : is_some after.error_message ≡ failing

    abbrev pub Processes : Outcome Bool × World → Type 0
    Processes (ok true, v) =
        ((find_event i w.events ≡ none) × (v.events ≡ w.events)) ⊎ Counted v processed true false
    Processes (ok false, v) = Counted v (if final_attempt then failed else pending) false true
    Processes (raise x, v) = v.events ≡ w.events

    settled-Counted :
        (e : Event) (u : World) (v : World) (p : Event × Outcome (Unit {0}))
        → find_event i w.events ≡ some e
        → u.events ≡ w.events
        → Simulates e p
        → p.1 ≡ ok tt
        → v.events ≡ overwrite p.0 u.events
        → Counted v processed true false
    settled-Counted e u v p was same s done written = record {
      before = e;
      after = p.0;
      was = was;
      is =
          rw (written, same)
            (find_event-overwrite_self i e p.0 w.events was
              (s.same_id ∙ id-find_event i e w.events was));
      attempts = s.attempts;
      has_status = s.status done;
      has_end = s.finished done;
      has_error = rw (s.clean done);
    }

    failed-Counted :
        (e : Event) (u : World) (v : World) (p : Event × Outcome (Unit {0})) (x : Exn)
        → find_event i w.events ≡ some e
        → u.events ≡ w.events
        → Simulates e p
        → v.events ≡ overwrite (failed_event rt p.0 final_attempt x) u.events
        → Counted v (if final_attempt then failed else pending) false true
    unfolding failed_event
    failed-Counted e u v p x was same s written = record {
      before = e;
      after = failed_event rt p.0 final_attempt x;
      was = was;
      is =
          rw (written, same)
            (find_event-overwrite_self i e (failed_event rt p.0 final_attempt x) w.events was
              (s.same_id ∙ id-find_event i e w.events was));
      attempts = s.attempts;
      has_status = refl;
      has_end = refl;
      has_error = refl;
    }

    -- From how an attempt on the found row settles to what a reader of the table sees.
    join-Processes :
        (e : Event) (u : World) (p : Event × Outcome (Unit {0})) (q : Outcome Bool × World)
        → find_event i w.events ≡ some e
        → u.events ≡ w.events
        → Simulates e p
        → Settles rt final_attempt p u q
        → Processes q
    join-Processes e u p (ok true, v) was same s (done, written) =
        inr (settled-Counted e u v p was same s done written)
    join-Processes e u p (ok false, v) was same s (x, why, written) =
        failed-Counted e u v p x was same s written
    join-Processes e u p (raise x, v) was same s h = h ∙ same

    found-Processes :
        (found : Option Event) (u : World)
        → find_event i w.events ≡ found
        → u.events ≡ w.events
        → Processes (process_found rt found final_attempt u)
    unfolding process_found
    found-Processes none u was same = inl (was, same)
    found-Processes (some e) u was same =
        join-Processes e u (attempted rt u e) (process_event rt e final_attempt u) was same
          (simulate-Simulates (rt.now u.history) e _) (process_event-Settles rt e final_attempt u)

  -- Processing an event by its id, whatever the database does. True: the event is unknown and nothing
  -- has changed, or its row is now processed, with an end time and no error. False: its row is failed
  -- if this was the final attempt and pending if not, with an error and no end time. In both cases the
  -- attempt is counted once. An exception: no row has changed.
  pub process_event_by_id-Processes :
      (event_id : Uuid) (final_attempt : Bool) (w : World)
      → Processes event_id final_attempt w (process_event_by_id rt event_id final_attempt w)
  unfolding process_event_by_id perform
  process_event_by_id-Processes i final_attempt w =
      elim (Bool-cases (rt.fails w.history db_execute)) [
        | inl down ↦ rw down refl
        | inr up ↦ rw up (
            found-Processes i final_attempt w (find_event i w.events)
              (record w { history = did db_execute ∷ w.history }) refl refl)
      ]
