-- ===== src/Processor/Transient.antt =====
-- Events whose payload asks for a number of failures (app/services/processor.py), where the database
-- works.
use webhook_ingestion_servic.Prelude.{
  ℕ, zero, suc, ◌+◌, ◌≡◌, ◌∙◌, Bool, true, false, none, some, ◌∷◌, pos, ◌-ℤ◌, int_laws, arith,
  if◌then◌else◌,
}
use webhook_ingestion_servic.Json.{Json, num, Fields, set}
use webhook_ingestion_servic.Json.Laws.{get-set}
use webhook_ingestion_servic.Events.{Uuid, pending, processed, failed, Event}
use webhook_ingestion_servic.Runtime.{
  Runtime, World, ok, raise, Exn, value_error, did, db_execute, db_commit, perform,
}
use webhook_ingestion_servic.Runtime.Calm.{IsCalm, perform_calm}
use webhook_ingestion_servic.Queue.Payload.{int_of_json}
use webhook_ingestion_servic.Crud.{overwrite}
use webhook_ingestion_servic.Processor.{
  failures_json, force_failure, simulate, save_event, failed_event, record_failure, record_success,
  settle, started, process_event, process_found, find_event, process_event_by_id,
}
use webhook_ingestion_servic.Processor.Rows.{id-find_event, find_event-overwrite_self}

module _ (rt : Runtime) where
  -- The payload makes the next `n` attempts fail, and no more.
  pub record HasFailures (payload : Fields) (n : ℕ) : Type 0 where
    pub count : int_of_json rt (failures_json payload) ≡ ok (pos n)
    pub unforced : force_failure payload ≡ false

  count-set :
      (payload : Fields) (n : ℕ)
      → int_of_json rt (failures_json (set "fail_attempts_remaining" (num (pos n)) payload))
        ≡ ok (pos n)
  unfolding failures_json int_of_json
  count-set payload zero = rw (
    get-set "fail_attempts_remaining" "fail_attempts_remaining" (num (pos 0)) payload,
    failures_json,
  )
  count-set payload (suc n) = rw (
    get-set "fail_attempts_remaining" "fail_attempts_remaining" (num (pos (suc n))) payload,
    failures_json,
  )

  unforced-set :
      (payload : Fields) (v : Json)
      → force_failure (set "fail_attempts_remaining" v payload) ≡ force_failure payload
  unfolding force_failure
  unforced-set payload v =
      rw (get-set "fail_attempts_remaining" "force_failure" v payload, force_failure)

  pub HasFailures-set :
      (payload : Fields) (n : ℕ)
      → force_failure payload ≡ false
      → HasFailures (set "fail_attempts_remaining" (num (pos n)) payload) n
  HasFailures-set payload n unforced = record {
    count = count-set payload n;
    unforced = unforced-set payload (num (pos n)) ∙ unforced;
  }

  pos-pred : (n : ℕ) → pos (suc n) -ℤ pos 1 ≡ pos n
  pos-pred n = omega int_laws

  -- The error that the simulated failure raises.
  abbrev pub transient_error : Exn
  transient_error = value_error "Synthetic transient processing failure requested by payload"

  -- The row after a failing attempt, before its status is set.
  abbrev pub decremented : ℕ → Event → Event
  decremented n event = record event {
    payload = set "fail_attempts_remaining" (num (pos n)) event.payload;
    processing_attempts = event.processing_attempts + 1;
  }

  simulate_failing :
      (now n : ℕ) (event : Event)
      → simulate rt now (started rt event) (ok (pos (suc n)))
        ≡ (decremented n event, raise transient_error)
  unfolding simulate started
  simulate_failing now n event = ground (arith, pos-pred n)

  pub settle_failing :
      (final_attempt : Bool) (e : Event) (x : Exn) (w : World)
      → IsCalm rt
      → let (r, v) = settle rt final_attempt (e, raise x) w in
        (r ≡ ok false) × (v.events ≡ overwrite (failed_event rt e final_attempt x) w.events)
  unfolding settle record_failure save_event perform
  settle_failing final_attempt e x w calm = ground (arith, calm.works w.history db_commit)

  pub settle_working :
      (final_attempt : Bool) (e : Event) (w : World)
      → IsCalm rt
      → let (r, v) = settle rt final_attempt (e, ok tt) w in
        (r ≡ ok true) × (v.events ≡ overwrite e w.events)
  unfolding settle record_success save_event perform
  settle_working final_attempt e w calm = ground (arith, calm.works w.history db_commit)

  -- The row after an attempt that works.
  abbrev pub completed : ℕ → Event → Event
  completed now event = record event {
    processing_status = processed;
    processing_attempts = event.processing_attempts + 1;
    processed_at = some now;
    error_message = none;
  }

  simulate_working :
      (now : ℕ) (event : Event)
      → force_failure event.payload ≡ false
      → simulate rt now (started rt event) (ok (pos 0)) ≡ (completed now event, ok tt)
  unfolding simulate started
  simulate_working now event unforced = ground arith

  -- The row of a failed attempt.
  abbrev pub after_failure : Bool → ℕ → Event → Event
  after_failure final_attempt n event = record event {
    payload = set "fail_attempts_remaining" (num (pos n)) event.payload;
    processing_status = if final_attempt then failed else pending;
    processing_attempts = event.processing_attempts + 1;
    processed_at = none;
    error_message = some (rt.describe transient_error);
  }

  module _ (i : Uuid) (final_attempt : Bool) (e : Event) (w : World) (calm : IsCalm rt)
      (was : find_event i w.events ≡ some e) where
    pub process_failing :
        (n : ℕ)
        → HasFailures e.payload (suc n)
        → let (r, v) = process_event_by_id rt i final_attempt w in
          (r ≡ ok false) × (find_event i v.events ≡ some (after_failure final_attempt n e))
    unfolding process_event_by_id process_found process_event failed_event
    process_failing n h =
        let u : World = record w { history = did db_execute ∷ w.history } in
        let (r, rows) = settle_failing final_attempt (decremented n e) transient_error u calm in
        rw
          (perform_calm rt calm db_execute w, was, h.count, simulate_failing (rt.now u.history) n e)
          (
            r,
            rw rows (
                find_event-overwrite_self i e (after_failure final_attempt n e) w.events was
                  (id-find_event i e w.events was)),
          )

    pub process_working :
        HasFailures e.payload 0
        → let (r, v) = process_event_by_id rt i final_attempt w in
          (now : ℕ) × (r ≡ ok true) × (find_event i v.events ≡ some (completed now e))
    unfolding process_event_by_id process_found process_event
    process_working h =
        let u : World = record w { history = did db_execute ∷ w.history } in
        let now = rt.now u.history in
        let (r, rows) = settle_working final_attempt (completed now e) u calm in
        rw (perform_calm rt calm db_execute w, was, h.count, simulate_working now e h.unforced)
          (
            now,
            r,
            rw rows (
                find_event-overwrite_self i e (completed now e) w.events was
                  (id-find_event i e w.events was)),
          )
