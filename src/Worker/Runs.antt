-- ===== src/Worker/Runs.antt =====
-- Runs of the worker of app/worker.py over a queue that holds one event, where no external call raises.
use webhook_ingestion_servic.Prelude.{
  inl, inr, ℕ, zero, suc, ◌<◌, ◌≡◌, refl, ap, ◌∙◌, subst, Bool, true, Option, none, some, List, [],
  ◌∷◌, pos, arith,
}
use webhook_ingestion_servic.Events.{Uuid, Event}
use webhook_ingestion_servic.Runtime.{Runtime, World, Outcome, Bytes, continue}
use webhook_ingestion_servic.Runtime.Calm.{IsCalm}
use webhook_ingestion_servic.Runtime.Rules.{Entry, sent, acked, log}
use webhook_ingestion_servic.Queue.Payload.{HasCodecs, queue_payload}
use webhook_ingestion_servic.Queue.Consume.{QueueEnvelope, Route, dequeue_event}
use webhook_ingestion_servic.Queue.Consume.Reroute.{successor}
use webhook_ingestion_servic.Processor.{find_event}
use webhook_ingestion_servic.Processor.Transient.{HasFailures, after_failure, completed}
use webhook_ingestion_servic.Worker.{is_final, handle_envelope, worker_round, worker_rounds}
use webhook_ingestion_servic.Worker.Delivery.{from_message, Delivers, handle_envelope-Delivers}
use webhook_ingestion_servic.Worker.Chain.{next_route, handle_failing, handle_working}
use webhook_ingestion_servic.Worker.Broker.{
  IsBroker, HasQueues, In, waiting, dead_letters, waiting_retried, waiting_dead, waiting_acked,
  dead_letters_retried, dead_letters_dead,
}
use webhook_ingestion_servic.Worker.Polls.{acks, IsSettled, GetsNone}
use webhook_ingestion_servic.Worker.Polls.Frames.{handle_envelope-GetsNone}
use webhook_ingestion_servic.Worker.Polling.{Takes, Gives, Idles-IsSettled, dequeue_event-Polls}
use webhook_ingestion_servic.Worker.Turns.{
  Turns, logged_routed, logged_done, is_final_last, rest_of_round, polled_nothing, polled,
  acks-successor, successor_below, successor_last,
}

module _ (rt : Runtime) where
  module _ (calm : IsCalm rt) (on : rt.settings.task_queue_backend ≡ "rabbitmq") (patience : ℕ)
      (broker : IsBroker rt patience) (named : HasQueues rt.settings) (i : Uuid)
      (codecs : (n : ℕ) → HasCodecs rt i (pos n)) where
    abbrev body : ℕ → Bytes
    body n = queue_payload rt i (pos n)

    -- The state between rounds: the worker holds no message.
    abbrev pub Ready : World → Type 0
    Ready w = IsSettled rt w.history

    -- Rounds over an empty queue change neither the rows nor the queues.
    pub idle :
        (rounds : ℕ) (w : World) (row : Event) (dead : List Bytes)
        → Ready w
        → find_event i w.events ≡ some row
        → waiting rt.settings (log w.history) ≡ []
        → dead_letters rt.settings (log w.history) ≡ dead
        → Turns rt i row [] dead (worker_rounds rt rounds w)
    unfolding worker_rounds worker_round
    idle zero w row dead ready found holds dropped = record {
      returned = refl;
      found = found;
      holds = holds;
      dropped = dropped;
      settled = ready;
    }
    idle (suc rounds) w row dead ready found holds dropped =
        elim (dequeue_event-Polls rt calm on patience broker w ready) [
          | inl t ↦
              polled_nothing rt
                (λ p. Turns rt i row [] dead (continue (λ _. worker_rounds rt rounds) p.0 p.1))
                (dequeue_event rt w) t.nothing
                (idle rounds (dequeue_event rt w).1 row dead
                  (Idles-IsSettled rt calm on patience broker w (dequeue_event rt w) ready t)
                  (ap (find_event i) t.rows ∙ found) (ap (waiting rt.settings) t.same_log ∙ holds)
                  (ap (dead_letters rt.settings) t.same_log ∙ dropped))
          | inr g ↦ absurd (subst (In g.message.body) holds g.member)
        ]

    module _ (n : ℕ) (w : World) (e : Event) (dead : List Bytes)
        (was : find_event i w.events ≡ some e) (ready : Ready w)
        (g : Gives rt calm on patience broker w (dequeue_event rt w))
        (holds : waiting rt.settings (log w.history) ≡ body n ∷ [])
        (dropped : dead_letters rt.settings (log w.history) ≡ dead) where
      abbrev polled_world : Outcome (Option QueueEnvelope) × World
      polled_world = dequeue_event rt w

      only : (x : Bytes) → In x (body n ∷ []) → x ≡ body n
      only x (inl is) = is
      only x (inr nowhere) = absurd nowhere

      body_eq : g.message.body ≡ body n
      body_eq = only g.message.body (subst (In g.message.body) holds g.member)

      takes : Takes rt calm on patience broker i n w g.message polled_world
      takes = g.opens i n (codecs n) body_eq

      abbrev handled : Outcome (Option Route) × World
      handled = handle_envelope rt (from_message i (pos n) g.message) polled_world.1

      delivered : Delivers rt i (pos n) g.message polled_world.1 handled
      delivered = handle_envelope-Delivers rt i (pos n) g.message polled_world.1 on

      gets : GetsNone rt polled_world.1 handled.1
      gets = (handle_envelope-GetsNone rt on i (pos n) g.message).at polled_world.1

      -- The message was acknowledged, so none is held.
      settles :
          (l : List Entry)
          → log handled.1.history ≡ acked g.message ∷ l
          → acks l ≡ acks (log w.history)
          → IsSettled rt handled.1.history
      settles l told same = record {
        returned = omega (arith, gets.taken_eq, takes.got_one, ready.returned, ap acks told, same);
        own = gets.strays_eq ∙ takes.got_own ∙ ready.own;
      }

      pub turn_working :
          HasFailures rt e.payload 0
          → (now : ℕ) × Turns rt i (completed rt now e) [] dead (worker_round rt w)
      unfolding worker_round dead_letters
      turn_working h =
          let (now, r, rows) =
            handle_working rt calm on i (pos n) g.message polled_world.1 e
              (ap (find_event i) takes.rows ∙ was) h in
          let logs =
            logged_done rt i (pos n) g.message polled_world.1 handled r delivered
            ∙ ap (λ l. acked g.message ∷ l) takes.same_log in
          (
            now,
            polled rt (Turns rt i (completed rt now e) [] dead) _ polled_world takes.taken (
                rest_of_round rt i (completed rt now e) [] dead none handled r rows
                  (ap (waiting rt.settings) logs
                    ∙ waiting_acked rt.settings named g.message (body n) (log w.history) body_eq
                        holds)
                  (ap (dead_letters rt.settings) logs ∙ dropped)
                  (settles (log w.history) logs refl)),
          )

      -- A failing attempt leaves what the queues hold after its successor.
      routes_on :
          (k : ℕ) (held dead' : List Bytes)
          → HasFailures rt e.payload (suc k)
          → waiting rt.settings (acked g.message ∷ successor rt i (pos n) ∷ log w.history) ≡ held
          → dead_letters rt.settings (acked g.message ∷ successor rt i (pos n) ∷ log w.history)
            ≡ dead'
          → Turns rt i
              (after_failure rt (is_final rt (from_message i (pos n) g.message)) k e)
              held
              dead'
              (worker_round rt w)
      unfolding worker_round
      routes_on k held dead' h waits drops =
          let row = after_failure rt (is_final rt (from_message i (pos n) g.message)) k e in
          let route = next_route rt calm on (pos n) in
          let (r, rows) =
            handle_failing rt calm on i (pos n) g.message polled_world.1 e k
              (ap (find_event i) takes.rows ∙ was) h in
          let logs =
            logged_routed rt i (pos n) g.message polled_world.1 route handled r delivered
            ∙ ap (λ l. acked g.message ∷ successor rt i (pos n) ∷ l) takes.same_log in
          polled rt (Turns rt i row held dead') _ polled_world takes.taken (
            rest_of_round rt i row held dead' (some route) handled r rows
              (ap (waiting rt.settings) logs ∙ waits) (ap (dead_letters rt.settings) logs ∙ drops)
              (settles (successor rt i (pos n) ∷ log w.history) logs
                (acks-successor rt i (pos n) (log w.history))))

      -- With attempts left, the message of the next one waits.
      pub turn_retried :
          (k most : ℕ)
          → rt.settings.rabbitmq_max_delivery_attempts ≡ pos most
          → n < most
          → HasFailures rt e.payload (suc k)
          → (final : Bool) × Turns rt i
              (after_failure rt final k e)
              (body (suc n) ∷ [])
              dead
              (worker_round rt w)
      turn_retried k most bound more h =
          let sends : successor rt i (pos n) ≡ sent rt.settings.retry_queue_name (body (suc n)) =
            successor_below rt i most bound n more in
          (
            is_final rt (from_message i (pos n) g.message),
            routes_on k (body (suc n) ∷ []) dead h
                (rw sends (
                  waiting_retried rt.settings named g.message (body n) (body (suc n))
                    (log w.history) body_eq holds))
                (rw sends (
                  dead_letters_retried rt.settings named g.message (body (suc n)) (log w.history)
                  ∙ dropped)),
          )

      -- After the last attempt its message is in the dead-letter queue.
      pub turn_dropped :
          (k : ℕ)
          → rt.settings.rabbitmq_max_delivery_attempts ≡ pos n
          → HasFailures rt e.payload (suc k)
          → Turns rt i (after_failure rt true k e) [] (body n ∷ dead) (worker_round rt w)
      turn_dropped k bound h =
          let sends : successor rt i (pos n) ≡ sent rt.settings.dead_letter_queue_name (body n) =
            successor_last rt i n bound in
          subst (λ b. Turns rt i (after_failure rt b k e) [] (body n ∷ dead) (worker_round rt w))
            (is_final_last rt i n g.message bound)
            (routes_on k [] (body n ∷ dead) h
              (rw sends (
                waiting_dead rt.settings named g.message (body n) (body n) (log w.history) body_eq
                  holds))
              (rw sends (
                dead_letters_dead rt.settings named g.message (body n) (log w.history)
                ∙ ap (λ l. body n ∷ l) dropped)))
