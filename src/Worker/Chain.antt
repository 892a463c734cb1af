-- ===== src/Worker/Chain.antt =====
-- A failing and a working attempt on a RabbitMQ message by the worker of app/worker.py, where no external
-- call raises.
use webhook_ingestion_servic.Prelude.{
  ℕ, suc, ◌≡◌, refl, ap, ◌∙◌, Bool, true, false, Option, none, some, ℤ, if◌then◌else◌,
}
use webhook_ingestion_servic.Events.{Uuid, Event}
use webhook_ingestion_servic.Runtime.{
  Runtime, World, Outcome, ok, raise, Message, ack, pure, continue,
}
use webhook_ingestion_servic.Runtime.Calm.{IsCalm, IsOk, Returns, perform_calm, returns_rules}
use webhook_ingestion_servic.Queue.Topology.Returns.{publish_to_rabbitmq-Returns}
use webhook_ingestion_servic.Queue.Consume.{
  Route, retry, dead_letter, reroute, retry_or_dead_letter, complete_event, complete_message,
}
use webhook_ingestion_servic.Queue.Consume.Reroute.{may_retry, Reroutes, reroute-Reroutes}
use webhook_ingestion_servic.Queue.Consume.Frames.{retry_or_dead_letter-SameRows}
use webhook_ingestion_servic.Processor.{find_event, process_event_by_id}
use webhook_ingestion_servic.Processor.Transient.{
  HasFailures, after_failure, completed, process_failing, process_working,
}
use webhook_ingestion_servic.Worker.{is_final, finish, handle_envelope}
use webhook_ingestion_servic.Worker.Delivery.{from_message, retry_or_dead_letter-rabbitmq}

module _ (rt : Runtime) (calm : IsCalm rt) (on : rt.settings.task_queue_backend ≡ "rabbitmq") where
  pub reroute-Returns : (i : Uuid) (a : ℤ) (m : Message) → Returns (reroute rt i a m)
  unfolding reroute
  reroute-Returns i a m = search (returns_rules, calm, publish_to_rabbitmq-Returns) depth 10

  -- Where a failed attempt is sent.
  abbrev pub next_route : ℤ → Route
  next_route a = if may_retry rt a then retry else dead_letter

  routed :
      (i : Uuid) (a : ℤ) (m : Message) (u : World) (p : Outcome Route × World)
      → IsOk p.0
      → Reroutes rt i a m u p
      → p.0 ≡ ok (next_route a)
  routed i a m u (ok route, v) fine h = ap (λ r. ok r) h.0
  routed i a m u (raise x, v) fine h = absurd fine

  module _ (i : Uuid) (a : ℤ) (m : Message) (w : World) where
    passed_on :
        (rows : Option Event) (route : Route) (q : Outcome Route × World)
        → q.0 ≡ ok route
        → find_event i q.1.events ≡ rows
        → let (r, v) = continue (λ action. pure (some action)) q.0 q.1 in
          (r ≡ ok (some route)) × (find_event i v.events ≡ rows)
    passed_on rows route (ok x, v) e found = (cc, found)
    passed_on rows route (raise x, v) e found = absurd (cc)

    failed_step :
        (rows : Option Event) (p : Outcome Bool × World)
        → p.0 ≡ ok false
        → find_event i p.1.events ≡ rows
        → let (r, v) = continue (finish rt (from_message i a m)) p.0 p.1 in
          (r ≡ ok (some (next_route a))) × (find_event i v.events ≡ rows)
    unfolding finish
    failed_step rows (ok true, u) h found = absurd (cc)
    failed_step rows (raise x, u) h found = absurd (cc)
    failed_step rows (ok false, u) h found =
        let went =
          routed i a m u (reroute rt i a m u) ((reroute-Returns i a m).at u)
            (reroute-Reroutes rt i a m u) in
        let kept = ((retry_or_dead_letter-SameRows rt (from_message i a m)).at u).events in
        passed_on rows (next_route a) (retry_or_dead_letter rt (from_message i a m) u)
          (rw (retry_or_dead_letter-rabbitmq rt i a m on) went) (ap (find_event i) kept ∙ found)

    completed_step :
        (rows : Option Event) (p : Outcome Bool × World)
        → p.0 ≡ ok true
        → find_event i p.1.events ≡ rows
        → let (r, v) = continue (finish rt (from_message i a m)) p.0 p.1 in
          (r ≡ ok none) × (find_event i v.events ≡ rows)
    unfolding finish complete_event complete_message
    completed_step rows (ok true, u) h found = rw (perform_calm rt calm (ack m) u) (refl, found)
    completed_step rows (ok false, u) h found = absurd (cc)
    completed_step rows (raise x, u) h found = absurd (cc)

    pub handle_failing :
        (e : Event) (k : ℕ)
        → find_event i w.events ≡ some e
        → HasFailures rt e.payload (suc k)
        → let (r, v) = handle_envelope rt (from_message i a m) w in
          (r ≡ ok (some (next_route a)))
          × (find_event i v.events ≡ some (after_failure rt (is_final rt (from_message i a m)) k e))
    unfolding handle_envelope
    handle_failing e k was h =
        let final_attempt = is_final rt (from_message i a m) in
        let (r, found) = process_failing rt i final_attempt e w calm was k h in
        failed_step (some (after_failure rt final_attempt k e))
          (process_event_by_id rt i final_attempt w) r found

    pub handle_working :
        (e : Event)
        → find_event i w.events ≡ some e
        → HasFailures rt e.payload 0
        → let (r, v) = handle_envelope rt (from_message i a m) w in
          (now : ℕ) × (r ≡ ok none) × (find_event i v.events ≡ some (completed rt now e))
    unfolding handle_envelope
    handle_working e was h =
        let final_attempt = is_final rt (from_message i a m) in
        let (now, r, found) = process_working rt i final_attempt e w calm was h in
        let (q, rows) =
          completed_step (some (completed rt now e)) (process_event_by_id rt i final_attempt w) r
            found in
        (now, q, rows)
