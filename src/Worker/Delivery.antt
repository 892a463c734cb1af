-- ===== src/Worker/Delivery.antt =====
-- When the worker of app/worker.py acknowledges a RabbitMQ message.
use webhook_ingestion_servic.Prelude.{
  ◌≡◌, refl, ◌∙◌, ap, ◌⊎◌, inl, inr, Bool, true, false, Option, none, some, ◌∷◌, ℤ, if◌then◌else◌,
  Bool-cases,
}
use webhook_ingestion_servic.Events.{Uuid, processed, Event}
use webhook_ingestion_servic.Runtime.{
  Runtime, World, Outcome, ok, raise, Message, ack, perform, pure, continue,
}
use webhook_ingestion_servic.Runtime.Rules.{acked, log}
use webhook_ingestion_servic.Queue.Consume.{
  QueueEnvelope, Route, retry, dead_letter, complete_event, complete_message, reroute_message,
  reroute, retry_or_dead_letter,
}
use webhook_ingestion_servic.Queue.Consume.Reroute.{
  may_retry, successor, Reroutes, reroute-Reroutes,
}
use webhook_ingestion_servic.Processor.{find_event, process_event_by_id}
use webhook_ingestion_servic.Processor.Lifecycle.{process_event_by_id-SameLog}
use webhook_ingestion_servic.Processor.Rows.{Processes, process_event_by_id-Processes}
use webhook_ingestion_servic.Worker.{is_final, finish, handle_envelope}

-- An envelope of a RabbitMQ message.
abbrev pub from_message : Uuid → ℤ → Message → QueueEnvelope
from_message event_id attempt m = record {
  event_id = event_id;
  attempt = attempt;
  raw_message = some m;
}

module _ (rt : Runtime) (event_id : Uuid) (attempt : ℤ) (m : Message) where
  -- Completed: the message is acknowledged, and its event is processed in the table, or was never
  -- there. Rerouted: the successor was published before the acknowledgement. After an exception the
  -- message is not acknowledged, so the broker still has it.
  abbrev pub Delivers : World → Outcome (Option Route) × World → Type 0
  Delivers w (ok none, v) =
      (log v.history ≡ acked m ∷ log w.history)
      × ((find_event event_id v.events ≡ none)
          ⊎ ((e : Event) × (find_event event_id v.events ≡ some e)
              × (e.processing_status ≡ processed)))
  Delivers w (ok (some route), v) =
      (route ≡ (if may_retry rt attempt then retry else dead_letter))
      × (log v.history ≡ acked m ∷ successor rt event_id attempt ∷ log w.history)
  Delivers w (raise x, v) =
      (log v.history ≡ log w.history)
      ⊎ (log v.history ≡ successor rt event_id attempt ∷ log w.history)

  -- The outcome of the second half of the loop body, from the world `u` that processing left.
  Finishes : World → Bool → Outcome (Option Route) × World → Type 0
  Finishes u true (ok none, v) = (log v.history ≡ acked m ∷ log u.history) × (v.events ≡ u.events)
  Finishes u true (ok (some route), v) = ⊥
  Finishes u false (ok none, v) = ⊥
  Finishes u false (ok (some route), v) =
      (route ≡ (if may_retry rt attempt then retry else dead_letter))
      × (log v.history ≡ acked m ∷ successor rt event_id attempt ∷ log u.history)
  Finishes u b (raise x, v) =
      (log v.history ≡ log u.history)
      ⊎ (log v.history ≡ successor rt event_id attempt ∷ log u.history)

  pub retry_or_dead_letter-rabbitmq :
      rt.settings.task_queue_backend ≡ "rabbitmq"
      → retry_or_dead_letter rt (from_message event_id attempt m) ≡ reroute rt event_id attempt m
  unfolding retry_or_dead_letter reroute_message
  retry_or_dead_letter-rabbitmq on = rw on

  completed-Finishes :
      (u : World) → Finishes u true (finish rt (from_message event_id attempt m) true u)
  unfolding Finishes finish complete_event complete_message perform
  completed-Finishes u = elim (Bool-cases (rt.fails u.history (ack m))) [
    | inl down ↦ rw down (inl refl)
    | inr up ↦ rw up (refl, refl)
  ]

  routed-Finishes :
      (u : World) (p : Outcome Route × World)
      → Reroutes rt event_id attempt m u p
      → Finishes u false (continue (λ action. pure (some action)) p.0 p.1)
  unfolding Finishes
  routed-Finishes u (ok route, v) h = h
  routed-Finishes u (raise x, v) h = h

  finish-Finishes :
      (b : Bool) (u : World)
      → rt.settings.task_queue_backend ≡ "rabbitmq"
      → Finishes u b (finish rt (from_message event_id attempt m) b u)
  unfolding finish
  finish-Finishes true u on = completed-Finishes u
  finish-Finishes false u on = rw (retry_or_dead_letter-rabbitmq on) (
      routed-Finishes u (reroute rt event_id attempt m u)
        (reroute-Reroutes rt event_id attempt m u))

  -- Both halves: processing leaves the log alone, so the second half decides.
  join-Delivers :
      (w : World) (b : Bool) (u : World) (q : Outcome (Option Route) × World)
      → log u.history ≡ log w.history
      → Processes rt event_id (is_final rt (from_message event_id attempt m)) w (ok b, u)
      → Finishes u b q
      → Delivers w q
  unfolding Finishes
  join-Delivers w true u (ok none, v) same (inl (unknown, kept)) (noted, rows) =
      (noted ∙ ap (λ l. acked m ∷ l) same, inl (ap (find_event event_id) (rows ∙ kept) ∙ unknown))
  join-Delivers w true u (ok none, v) same (inr c) (noted, rows) = (
    noted ∙ ap (λ l. acked m ∷ l) same,
    inr (c.after, ap (find_event event_id) rows ∙ c.is, c.has_status),
  )
  join-Delivers w true u (ok (some route), v) same p h = absurd h
  join-Delivers w false u (ok none, v) same p h = absurd h
  join-Delivers w false u (ok (some route), v) same p (routed, noted) =
      (routed, noted ∙ ap (λ l. acked m ∷ successor rt event_id attempt ∷ l) same)
  join-Delivers w true u (raise x, v) same p (inl h) = inl (h ∙ same)
  join-Delivers w true u (raise x, v) same p (inr h) =
      inr (h ∙ ap (λ l. successor rt event_id attempt ∷ l) same)
  join-Delivers w false u (raise x, v) same p (inl h) = inl (h ∙ same)
  join-Delivers w false u (raise x, v) same p (inr h) =
      inr (h ∙ ap (λ l. successor rt event_id attempt ∷ l) same)

  join_processed :
      (w : World) (p : Outcome Bool × World)
      → rt.settings.task_queue_backend ≡ "rabbitmq"
      → log p.1.history ≡ log w.history
      → Processes rt event_id (is_final rt (from_message event_id attempt m)) w p
      → Delivers w (continue (finish rt (from_message event_id attempt m)) p.0 p.1)
  join_processed w (ok b, u) on same h =
      join-Delivers w b u (finish rt (from_message event_id attempt m) b u) same h
        (finish-Finishes b u on)
  join_processed w (raise x, u) on same h = inl same

  -- What one round of the worker does with a RabbitMQ message, whatever the broker and the database
  -- do. If it returns, the message was acknowledged once: either its event is processed in the table
  -- or was never there, or the message for the next attempt (the retry queue while attempts are left,
  -- the dead-letter queue after that) was published before. If it raises, the message was not
  -- acknowledged.
  pub handle_envelope-Delivers :
      (w : World)
      → rt.settings.task_queue_backend ≡ "rabbitmq"
      → Delivers w (handle_envelope rt (from_message event_id attempt m) w)
  unfolding handle_envelope
  handle_envelope-Delivers w on =
      let final_attempt = is_final rt (from_message event_id attempt m) in
      join_processed w (process_event_by_id rt event_id final_attempt w) on
        ((process_event_by_id-SameLog rt event_id final_attempt).at w).log_eq
        (process_event_by_id-Processes rt event_id final_attempt w)
