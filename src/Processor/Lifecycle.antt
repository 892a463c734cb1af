-- ===== src/Processor/Lifecycle.antt =====
-- How app/services/processor.py changes the row of an event.
use webhook_ingestion_servic.Prelude.{
  ◌≡◌, refl, ◌⊎◌, inl, inr, Bool, true, false, Option, none, some, arith,
}
use webhook_ingestion_servic.Events.{Uuid, Event}
use webhook_ingestion_servic.Runtime.{Runtime, World, Outcome, ok, raise, Exn, external, perform}
use webhook_ingestion_servic.Runtime.Rules.{Keeps, SameLog, log_rules}
use webhook_ingestion_servic.Queue.Payload.{int_of_json}
use webhook_ingestion_servic.Crud.{overwrite}
use webhook_ingestion_servic.Processor.{
  failures_json, simulate, save_event, failed_event, record_failure, record_success, settle,
  started, process_event, process_found, process_event_by_id,
}

module _ (rt : Runtime) where
  -- The event after the simulated work of an attempt that starts in `w`, and whether that raised.
  abbrev pub attempted : World → Event → Event × Outcome (Unit {0})
  attempted w event =
      simulate rt (rt.now w.history) (started rt event)
        (int_of_json rt (failures_json event.payload))

  settle_raised :
      (final_attempt : Bool) (e : Event) (x : Exn) (w : World)
      → let (r, v) = settle rt final_attempt (e, raise x) w in
        ((r ≡ ok false) × (v.events ≡ overwrite (failed_event rt e final_attempt x) w.events))
        ⊎ ((r ≡ raise external) × (v.events ≡ w.events))
  unfolding settle record_failure save_event perform
  settle_raised final_attempt e x w = ground arith

  settle_done :
      (final_attempt : Bool) (e : Event) (w : World)
      → let (r, v) = settle rt final_attempt (e, ok tt) w in
        ((r ≡ ok true) × (v.events ≡ overwrite e w.events))
        ⊎ (((r ≡ ok false)
              × (v.events ≡ overwrite (failed_event rt e final_attempt external) w.events))
            ⊎ ((r ≡ raise external) × (v.events ≡ w.events)))
  unfolding settle record_success record_failure save_event perform
  settle_done final_attempt e w = ground arith

  -- How an attempt on a row ends, where the simulated work left `p`. True: the work raised nothing
  -- and its row was committed. False: it raised `x`, or the commit did, and the row of the failure was
  -- committed. An exception: no row has changed.
  abbrev pub Settles : Bool → Event × Outcome (Unit {0}) → World → Outcome Bool × World → Type 0
  Settles final_attempt p w (ok true, v) = (p.1 ≡ ok tt) × (v.events ≡ overwrite p.0 w.events)
  Settles final_attempt p w (ok false, v) =
      (x : Exn) × ((p.1 ≡ raise x) ⊎ (x ≡ external))
      × (v.events ≡ overwrite (failed_event rt p.0 final_attempt x) w.events)
  Settles final_attempt p w (raise x, v) = v.events ≡ w.events

  settle-Settles :
      (final_attempt : Bool) (p : Event × Outcome (Unit {0})) (w : World)
      → Settles final_attempt p w (settle rt final_attempt p w)
  settle-Settles final_attempt (e, raise x) w =
      raised (settle rt final_attempt (e, raise x) w) (settle_raised final_attempt e x w)
    where
      raised :
          (q : Outcome Bool × World)
          → ((q.0 ≡ ok false)
              × (q.1.events ≡ overwrite (failed_event rt e final_attempt x) w.events))
            ⊎ ((q.0 ≡ raise external) × (q.1.events ≡ w.events))
          → Settles final_attempt (e, raise x) w q
      raised (ok true, v) h = ground arith
      raised (ok false, v) (inl (a, b)) = (x, inl refl, b)
      raised (ok false, v) (inr (a, b)) = cc
      raised (raise y, v) (inl (a, b)) = cc
      raised (raise y, v) (inr (a, b)) = b
  settle-Settles final_attempt (e, ok done) w =
      returned (settle rt final_attempt (e, ok tt) w) (settle_done final_attempt e w)
    where
      returned :
          (q : Outcome Bool × World)
          → ((q.0 ≡ ok true) × (q.1.events ≡ overwrite e w.events))
            ⊎ (((q.0 ≡ ok false)
                  × (q.1.events ≡ overwrite (failed_event rt e final_attempt external) w.events))
                ⊎ ((q.0 ≡ raise external) × (q.1.events ≡ w.events)))
          → Settles final_attempt (e, ok tt) w q
      returned (ok true, v) h = ground arith
      returned (ok false, v) (inl (a, b)) = cc
      returned (ok false, v) (inr (inl (a, b))) = (external, inr refl, b)
      returned (ok false, v) (inr (inr (a, b))) = cc
      returned (raise y, v) h = ground arith

  pub process_event-Settles :
      (event : Event) (final_attempt : Bool) (w : World)
      → Settles final_attempt (attempted w event) w (process_event rt event final_attempt w)
  unfolding process_event
  process_event-Settles event final_attempt w = settle-Settles final_attempt (attempted w event) w

-- Processing tells the broker nothing.
module _ (rt : Runtime) where
  save_event-SameLog : (e : Event) → Keeps SameLog (save_event rt e)
  unfolding save_event
  save_event-SameLog e = search log_rules depth 8

  record_failure-SameLog :
      (e : Event) (final_attempt : Bool) (x : Exn)
      → Keeps SameLog (record_failure rt e final_attempt x)
  unfolding record_failure
  record_failure-SameLog e final_attempt x = search (log_rules, save_event-SameLog) depth 8

  record_success-SameLog : (e : Event) → Keeps SameLog (record_success rt e)
  unfolding record_success
  record_success-SameLog e = search (log_rules, save_event-SameLog) depth 8

  settle-SameLog :
      (final_attempt : Bool) (p : Event × Outcome (Unit {0}))
      → Keeps SameLog (settle rt final_attempt p)
  unfolding settle
  settle-SameLog final_attempt (e, raise x) = record_failure-SameLog e final_attempt x
  settle-SameLog final_attempt (e, ok done) =
      search (log_rules, record_success-SameLog, record_failure-SameLog)

  process_event-SameLog :
      (e : Event) (final_attempt : Bool) → Keeps SameLog (process_event rt e final_attempt)
  unfolding process_event
  process_event-SameLog e final_attempt = search (log_rules, settle-SameLog)

  process_found-SameLog :
      (found : Option Event) (final_attempt : Bool)
      → Keeps SameLog (process_found rt found final_attempt)
  unfolding process_found
  process_found-SameLog none final_attempt = search log_rules
  process_found-SameLog (some e) final_attempt = process_event-SameLog e final_attempt

  pub process_event_by_id-SameLog :
      (i : Uuid) (final_attempt : Bool) → Keeps SameLog (process_event_by_id rt i final_attempt)
  unfolding process_event_by_id
  process_event_by_id-SameLog i final_attempt = search (log_rules, process_found-SameLog) depth 8
