-- ===== src/Worker/Turns.antt =====
-- What a round of the worker of app/worker.py leaves behind, and how rounds are put together.
use webhook_ingestion_servic.Prelude.{
  Bool-cases, inl, inr, ℕ, suc, ◌<◌, ◌≡◌, refl, subst, true, Option, none, some, List, ◌∷◌, ℤ, pos,
  ◌+ℤ◌, arith,
}
use webhook_ingestion_servic.Events.{Uuid, Event}
use webhook_ingestion_servic.Runtime.{
  Runtime, World, Action, Outcome, ok, raise, Bytes, Message, pure, continue,
}
use webhook_ingestion_servic.Runtime.Rules.{Entry, sent, acked, log}
use webhook_ingestion_servic.Queue.Payload.{queue_payload}
use webhook_ingestion_servic.Queue.Consume.{QueueEnvelope, Route}
use webhook_ingestion_servic.Queue.Consume.Reroute.{may_retry, successor}
use webhook_ingestion_servic.Processor.{find_event}
use webhook_ingestion_servic.Worker.{is_final, handle_envelope, handle_polled}
use webhook_ingestion_servic.Worker.Delivery.{from_message, Delivers}
use webhook_ingestion_servic.Worker.Broker.{waiting, dead_letters}
use webhook_ingestion_servic.Worker.Polls.{acks, IsSettled}

module _ (rt : Runtime) where
  -- A run returned, and this is the event's row, what the main queue holds, and what was put into the
  -- dead-letter queue.
  pub record Turns (i : Uuid) (row : Event) (held dead : List Bytes)
      (p : Outcome (Unit {0}) × World) : Type 0 where
    pub returned : p.0 ≡ ok tt
    pub found : find_event i p.1.events ≡ some row
    pub holds : waiting rt.settings (log p.1.history) ≡ held
    pub dropped : dead_letters rt.settings (log p.1.history) ≡ dead
    pub settled : IsSettled rt p.1.history

  pub logged_routed :
      (i : Uuid) (a : ℤ) (m : Message) (u : World) (route : Route)
      (p : Outcome (Option Route) × World)
      → p.0 ≡ ok (some route)
      → Delivers rt i a m u p
      → log p.1.history ≡ acked m ∷ successor rt i a ∷ log u.history
  logged_routed i a m u route (ok none, v) is h = absurd (cc)
  logged_routed i a m u route (ok (some r), v) is h = h.1
  logged_routed i a m u route (raise x, v) is h = absurd (cc)

  pub logged_done :
      (i : Uuid) (a : ℤ) (m : Message) (u : World) (p : Outcome (Option Route) × World)
      → p.0 ≡ ok none
      → Delivers rt i a m u p
      → log p.1.history ≡ acked m ∷ log u.history
  logged_done i a m u (ok none, v) is h = h.0
  logged_done i a m u (ok (some r), v) is h = absurd (cc)
  logged_done i a m u (raise x, v) is h = absurd (cc)

  -- The successor is no acknowledgement.
  pub acks-successor : (i : Uuid) (a : ℤ) (l : List Entry) → acks (successor rt i a ∷ l) ≡ acks l
  acks-successor i a l = elim (Bool-cases (may_retry rt a)) [
    | inl again ↦ rw again refl
    | inr over ↦ rw over refl
  ]

  pub successor_below :
      (i : Uuid) (most : ℕ)
      → rt.settings.rabbitmq_max_delivery_attempts ≡ pos most
      → (n : ℕ) → n < most
      → successor rt i (pos n)
        ≡ sent rt.settings.retry_queue_name (queue_payload rt i (pos (suc n)))
  unfolding ◌+ℤ◌
  successor_below i most bound n h = rw bound (ground arith)

  pub successor_last :
      (i : Uuid) (most : ℕ)
      → rt.settings.rabbitmq_max_delivery_attempts ≡ pos most
      → successor rt i (pos most)
        ≡ sent rt.settings.dead_letter_queue_name (queue_payload rt i (pos most))
  unfolding ◌+ℤ◌
  successor_last i most bound = rw bound (ground arith)

  pub is_final_last :
      (i : Uuid) (most : ℕ) (m : Message)
      → rt.settings.rabbitmq_max_delivery_attempts ≡ pos most
      → is_final rt (from_message i (pos most) m) ≡ true
  unfolding is_final
  is_final_last i most m bound = rw bound (ground arith)

  -- The rest of a round, after the envelope was handled with a result.
  pub rest_of_round :
      (i : Uuid) (row : Event) (held dead : List Bytes) (x : Option Route)
      (p : Outcome (Option Route) × World)
      → p.0 ≡ ok x
      → find_event i p.1.events ≡ some row
      → waiting rt.settings (log p.1.history) ≡ held
      → dead_letters rt.settings (log p.1.history) ≡ dead
      → IsSettled rt p.1.history
      → Turns i row held dead (continue (λ _. pure tt) p.0 p.1)
  rest_of_round i row held dead x (ok y, v) is found holds dropped settled = record {
    returned = refl;
    found = found;
    holds = holds;
    dropped = dropped;
    settled = settled;
  }
  rest_of_round i row held dead x (raise y, v) is found holds dropped settled = absurd (cc)

  -- A round whose poll gave an envelope handles it.
  pub polled :
      (Q : Outcome (Unit {0}) × World → Type 0) (e : QueueEnvelope)
      (p : Outcome (Option QueueEnvelope) × World)
      → p.0 ≡ ok (some e)
      → Q (continue (λ _. pure tt) (handle_envelope rt e p.1).0 (handle_envelope rt e p.1).1)
      → Q (continue (handle_polled rt) p.0 p.1)
  unfolding handle_polled
  polled Q e (ok none, u) is h = absurd (cc)
  polled Q e (ok (some e'), u) is h =
      let same : e ≡ e' = cc in
      subst (λ x. Q (continue (λ _. pure tt) (handle_envelope rt x u).0 (handle_envelope rt x u).1))
        same h
  polled Q e (raise x, u) is h = absurd (cc)

  pub polled_nothing :
      (Q : Outcome (Unit {0}) × World → Type 0) (p : Outcome (Option QueueEnvelope) × World)
      → p.0 ≡ ok none
      → Q (ok tt, p.1)
      → Q (continue (handle_polled rt) p.0 p.1)
  unfolding handle_polled
  polled_nothing Q (ok none, u) is h = h
  polled_nothing Q (ok (some e'), u) is h = absurd (cc)
  polled_nothing Q (raise x, u) is h = absurd (cc)

  -- The rounds after a round that returned.
  pub later_rounds :
      (Q : Outcome (Unit {0}) × World → Type 0) (m : Action (Unit {0}))
      (p : Outcome (Unit {0}) × World)
      → p.0 ≡ ok tt
      → Q (m p.1)
      → Q (continue (λ _. m) p.0 p.1)
  later_rounds Q m (ok done, u) is h = h
  later_rounds Q m (raise x, u) is h = absurd (cc)
