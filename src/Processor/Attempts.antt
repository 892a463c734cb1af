-- ===== src/Processor/Attempts.antt =====
-- One attempt on an event, whatever its payload asks for (app/services/processor.py), where no external
-- call raises.
use webhook_ingestion_servic.Prelude.{
  ℕ, ◌+◌, ◌≡◌, refl, sym, subst, ◌∙◌, ap, ◌⊎◌, inl, inr, Bool, true, false, some, ◌∷◌, ℤ, pos,
  ltb_ℤ, Bool-cases, if◌then◌else◌,
}
use webhook_ingestion_servic.Json.{Fields}
use webhook_ingestion_servic.Events.{Uuid, Event, ProcessingStatus, pending, processed, failed}
use webhook_ingestion_servic.Runtime.{Runtime, World, Outcome, ok, raise, Exn, did, db_execute}
use webhook_ingestion_servic.Runtime.Calm.{IsCalm, perform_calm}
use webhook_ingestion_servic.Queue.Payload.{int_of_json}
use webhook_ingestion_servic.Crud.{overwrite}
use webhook_ingestion_servic.Processor.{
  failures_json, force_failure, simulate, started, failed_event, settle, process_event,
  process_found, find_event, process_event_by_id,
}
use webhook_ingestion_servic.Processor.Rows.{id-find_event, find_event-overwrite_self}
use webhook_ingestion_servic.Processor.Transient.{settle_failing, settle_working, completed}

-- The event's row has a status and a number of attempts.
pub record HasRow (i : Uuid) (v : World) (status : ProcessingStatus) (attempts : ℕ) : Type 0 where
  pub row : Event
  pub found : find_event i v.events ≡ some row
  pub has_status : row.processing_status ≡ status
  pub counted : row.processing_attempts ≡ attempts

module _ (rt : Runtime) where
  -- The payload asks for no failure: its count reads as an integer that is not positive, and no failure
  -- is forced.
  abbrev pub AsksNone : Fields → Type 0
  AsksNone payload =
      (z : ℤ) × (int_of_json rt (failures_json payload) ≡ ok z)
      × (ltb_ℤ (pos 0) z ≡ false)
      × (force_failure payload ≡ false)

  -- The payload asks for a failure: its count is no integer, or is positive, or a failure is forced.
  abbrev pub AsksFailure : Fields → Type 0
  AsksFailure payload =
      ((x : Exn) × (int_of_json rt (failures_json payload) ≡ raise x))
      ⊎ ((z : ℤ) × (int_of_json rt (failures_json payload) ≡ ok z)
          × ((ltb_ℤ (pos 0) z ≡ true) ⊎ (force_failure payload ≡ true)))

  -- The simulated work of an attempt either ends the event or raises, on the event's own row.
  Simulated : ℕ → Event → Event × Outcome (Unit {0}) → Type 0
  Simulated now e p =
      (AsksNone e.payload × (p ≡ (completed rt now e, ok tt)))
      ⊎ (AsksFailure e.payload
          × ((x : Exn) × (p.1 ≡ raise x)
              × (p.0.id ≡ e.id)
              × (p.0.processing_attempts ≡ e.processing_attempts + 1)))

  simulate-Simulated :
      (now : ℕ) (e : Event) (c : Outcome ℤ)
      → int_of_json rt (failures_json e.payload) ≡ c
      → Simulated now e (simulate rt now (started rt e) c)
  unfolding simulate started Simulated
  simulate-Simulated now e (raise x) read = inr (inl (x, read), (x, refl, refl, refl))
  simulate-Simulated now e (ok z) read = elim (Bool-cases (ltb_ℤ (pos 0) z)) [
    | inl more ↦ rw more (inr (inr (z, read, inl more), (_, refl, refl, refl)))
    | inr none ↦ elim (Bool-cases (force_failure e.payload)) [
      | inl forced ↦ rw (none, forced) (inr (inr (z, read, inr refl), (_, refl, refl, refl)))
      | inr unforced ↦ rw (none, unforced) (inl ((z, read, none, refl), refl))
    ]
  ]

  -- One attempt: the event is processed if its payload asks for no failure; if it asks for one, the
  -- row has the status of a failed attempt. The attempt is counted.
  abbrev pub Tried : Uuid → Bool → Event → Outcome Bool × World → Type 0
  Tried i final_attempt e p =
      (AsksNone e.payload × (p.0 ≡ ok true) × HasRow i p.1 processed (e.processing_attempts + 1))
      ⊎ (AsksFailure e.payload
          × (p.0 ≡ ok false)
          × HasRow i p.1 (if final_attempt then failed else pending) (e.processing_attempts + 1))

  module _ (i : Uuid) (final_attempt : Bool) (e : Event) (w : World) (calm : IsCalm rt)
      (was : find_event i w.events ≡ some e) where
    written : (x : Event) → x.id ≡ e.id → find_event i (overwrite x w.events) ≡ some x
    written x same =
        find_event-overwrite_self i e x w.events was (same ∙ id-find_event i e w.events was)

    settled :
        (now : ℕ) (u : World) (p : Event × Outcome (Unit {0}))
        → u.events ≡ w.events
        → Simulated now e p
        → Tried i final_attempt e (settle rt final_attempt p u)
    unfolding Simulated failed_event
    settled now u p same (inl (none, is)) =
        let (r, rows) = settle_working rt final_attempt (completed rt now e) u calm in
        let row =
          ap (find_event i) (rows ∙ ap (overwrite (completed rt now e)) same)
          ∙ written (completed rt now e) refl in
        subst (λ q. Tried i final_attempt e (settle rt final_attempt q u)) (sym is)
          (inl (
            none,
            r,
            record { row = completed rt now e; found = row; has_status = refl; counted = refl },
          ))
    settled now u (e', o) same (inr (asks, (x, is, key, count))) =
        let (r, rows) = settle_failing rt final_attempt e' x u calm in
        let left = failed_event rt e' final_attempt x in
        let row = ap (find_event i) (rows ∙ ap (overwrite left) same) ∙ written left key in
        subst (λ y. Tried i final_attempt e (settle rt final_attempt (e', y) u)) (sym is)
          (inr (asks, r, record { row = left; found = row; has_status = refl; counted = count }))

    pub process_event_by_id-Tried :
        Tried i final_attempt e (process_event_by_id rt i final_attempt w)
    unfolding process_event_by_id process_found process_event Simulated
    process_event_by_id-Tried =
        let u : World = record w { history = did db_execute ∷ w.history } in
        rw (perform_calm rt calm db_execute w, was)
          (settled (rt.now u.history) u _ refl (simulate-Simulated (rt.now u.history) e _ refl))
