-- ===== src/Queue/Consume/Reroute.antt =====
-- Where app/queue.py sends a message on, and when it acknowledges it.
use webhook_ingestion_servic.Prelude.{
  String, Bool, ◌≡◌, refl, ◌∙◌, ◌⊎◌, inl, inr, ◌∷◌, ℤ, pos, ◌+ℤ◌, leb_ℤ, if◌then◌else◌, arith,
  Bool-cases,
}
use webhook_ingestion_servic.Events.{Uuid}
use webhook_ingestion_servic.Runtime.{
  Runtime, World, Action, Outcome, ok, raise, Bytes, Message, import_aio_pika, get_exchange,
  publish, perform, ◌>>=◌, continue,
}
use webhook_ingestion_servic.Runtime.Rules.{
  Keeps, SameLog, Entry, sent, acked, log, perform-SameLog,
}
use webhook_ingestion_servic.Queue.Payload.{queue_payload}
use webhook_ingestion_servic.Queue.Topology.{publish_to_rabbitmq}
use webhook_ingestion_servic.Queue.Topology.Frames.{ensure_rabbitmq_topology-SameLog}
use webhook_ingestion_servic.Queue.Consume.{Route, retry, dead_letter, reroute}

-- A return has told the broker one thing, an exception nothing.
abbrev pub Tells : {A : Type 0} → Entry → World → Outcome A × World → Type 0
Tells e w (ok a, v) = log v.history ≡ e ∷ log w.history
Tells e w (raise x, v) = log v.history ≡ log w.history

Tells-shift :
    {A : Type 0} (e : Entry) (w v : World) (p : Outcome A × World)
    → log v.history ≡ log w.history
    → Tells e v p
    → Tells e w p
Tells-shift e w v (ok a, u) same h = rw same at h
Tells-shift e w v (raise x, u) same h = h ∙ same

pub Tells-bind :
    {A B : Type 0} (e : Entry) (m : Action A) (f : A → Action B) (w : World)
    → Keeps SameLog m
    → ((a : A) (u : World) → Tells e u (f a u))
    → Tells e w ((m >>= f) w)
Tells-bind {A} {B} e m f w quiet later = step (m w) (quiet.at w).log_eq
  where
    step :
        (p : Outcome A × World) → log p.1.history ≡ log w.history → Tells e w (continue f p.0 p.1)
    step (ok a, u) same = Tells-shift e w u (f a u) same (later a u)
    step (raise x, u) same = same

module _ (rt : Runtime) where
  perform-Tells :
      (key : String) (body : Bytes) (w : World)
      → Tells (sent key body) w (perform rt (publish key body) w)
  unfolding perform
  perform-Tells key body w = ground arith

  -- Publishing writes the message of the event and the attempt under its key, once, or raises and
  -- has written nothing.
  pub publish_to_rabbitmq-Tells :
      (event_id : Uuid) (routing_key : String) (attempt : ℤ) (w : World)
      → Tells
          (sent routing_key (queue_payload rt event_id attempt))
          w
          (publish_to_rabbitmq rt event_id routing_key attempt w)
  unfolding publish_to_rabbitmq
  publish_to_rabbitmq-Tells event_id key attempt w =
      let e = sent key (queue_payload rt event_id attempt) in
      Tells-bind e _ _ w (perform-SameLog rt import_aio_pika refl) λ _ u.
        Tells-bind e _ _ u (ensure_rabbitmq_topology-SameLog rt) λ _ v.
          Tells-bind e _ _ v
            (perform-SameLog rt (get_exchange rt.settings.rabbitmq_exchange_name) refl)
            λ _ x. perform-Tells key (queue_payload rt event_id attempt) x

  -- Whether another attempt is allowed after the given one.
  abbrev pub may_retry : ℤ → Bool
  may_retry attempt = leb_ℤ (attempt +ℤ pos 1) rt.settings.rabbitmq_max_delivery_attempts

  -- The message that follows a failed attempt.
  abbrev pub successor : Uuid → ℤ → Entry
  successor event_id attempt =
      if may_retry attempt
      then sent rt.settings.retry_queue_name (queue_payload rt event_id (attempt +ℤ pos 1))
      else sent rt.settings.dead_letter_queue_name (queue_payload rt event_id attempt)

  abbrev pub Reroutes : Uuid → ℤ → Message → World → Outcome Route × World → Type 0
  Reroutes event_id attempt m w (ok route, v) =
      (route ≡ (if may_retry attempt then retry else dead_letter))
      × (log v.history ≡ acked m ∷ successor event_id attempt ∷ log w.history)
  Reroutes event_id attempt m w (raise x, v) =
      (log v.history ≡ log w.history) ⊎ (log v.history ≡ successor event_id attempt ∷ log w.history)

  -- The part of `retry_or_dead_letter` for a RabbitMQ message, whatever the broker does. If it returns,
  -- the successor was published, to the retry queue with the next attempt while attempts are left and
  -- else to the dead-letter queue, and then the message was acknowledged. If it raises, the message
  -- was not acknowledged, and the successor may have been published.
  pub reroute-Reroutes :
      (event_id : Uuid) (attempt : ℤ) (m : Message) (w : World)
      → Reroutes event_id attempt m w (reroute rt event_id attempt m w)
  unfolding reroute perform
  reroute-Reroutes event_id attempt m w = elim (Bool-cases (may_retry attempt)) [
    | inl again ↦ rw again (
        ground (
          arith,
          publish_to_rabbitmq-Tells event_id rt.settings.retry_queue_name (attempt +ℤ pos 1) w,
        ))
    | inr last ↦ rw last (
        ground
          (arith, publish_to_rabbitmq-Tells event_id rt.settings.dead_letter_queue_name attempt w))
  ]
