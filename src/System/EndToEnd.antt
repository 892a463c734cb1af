-- ===== src/System/EndToEnd.antt =====
-- A delivery from its acceptance by the API (app/routers/webhooks.py) to the end of its event
-- in the worker (app/worker.py).
use webhook_ingestion_servic.Prelude.{
  ◌+◌, ◌-◌, ℕ, ◌≤◌, ◌≡◌, ◌≢◌, sym, ap, subst, ◌∙◌, String, some, [], ◌∷◌, pos, arith,
}
use Prim.Native.Nat.{◌*◌}
use webhook_ingestion_servic.Worker.Polls.{IsSettled}
use webhook_ingestion_servic.Events.{Uuid}
use webhook_ingestion_servic.Runtime.{Runtime, World, ok}
use webhook_ingestion_servic.Runtime.Calm.{IsCalm}
use webhook_ingestion_servic.Runtime.Rules.{log}
use webhook_ingestion_servic.Crud.Unique.{IsUnique}
use webhook_ingestion_servic.Processor.{find_event}
use webhook_ingestion_servic.Processor.Transient.{HasFailures}
use webhook_ingestion_servic.Queue.Payload.{HasCodecs, queue_payload}
use webhook_ingestion_servic.Routes.{
  WebhookIn, HttpRequest, WebhookAccepted, accepted, receive_webhook,
}
use webhook_ingestion_servic.Routes.Publishing.{Publishes, receive_webhook-Publishes, first_message}
use webhook_ingestion_servic.Worker.{run_worker}
use webhook_ingestion_servic.Worker.Broker.{
  IsBroker, HasQueues, waiting, dead_letters, waiting_sent, dead_letters_sent,
}
use webhook_ingestion_servic.Worker.Settles.{Settles, run_worker-Settles}
use webhook_ingestion_servic.Routes.Accounts.{accepted_news}
use webhook_ingestion_servic.System.Stored.{accepted-Stored}

module _ (rt : Runtime) (on : rt.settings.task_queue_backend ≡ "rabbitmq")
    (named : HasQueues rt.settings) where
  -- What an accepted delivery leaves in the queues.
  record Handed (i : Uuid) (w v : World) : Type 0 where
    holds : waiting rt.settings (log v.history) ≡ queue_payload rt i (pos 1) ∷ []
    dropped : dead_letters rt.settings (log v.history) ≡ dead_letters rt.settings (log w.history)

  module _ (d : WebhookIn) (request : HttpRequest) (delivery : String) where
    accepted-Handed :
        (w v : World) (a : WebhookAccepted)
        → receive_webhook rt d request w ≡ (ok a, v)
        → a.status ≡ accepted
        → waiting rt.settings (log w.history) ≡ []
        → Handed a.event_id w v
    accepted-Handed w v a ran is idle =
        let told =
          accepted_news (λ u. log u.history) (λ i l. first_message rt i ∷ l) w v a is
            (subst (Publishes rt w) ran (receive_webhook-Publishes rt on d request w)) in
        record {
          holds =
              ap (waiting rt.settings) told
              ∙ waiting_sent rt.settings named (queue_payload rt a.event_id (pos 1)) (log w.history)
                  idle;
          dropped =
              ap (dead_letters rt.settings) told
              ∙ dead_letters_sent rt.settings named (queue_payload rt a.event_id (pos 1))
                  (log w.history);
        }

    -- From the request to the end of the event. A delivery is accepted on RabbitMQ, with unique keys in
    -- the table and nothing in the main and the retry queue. Then a worker that holds no message, on the
    -- same rows and on a broker that was told the same, where no external call raises and a message is
    -- held back for at most `patience` idle polls in a row, ends the event in `patience + 1` rounds for
    -- each allowed attempt, where the payload forces no failure: processed if the `k` failures that the
    -- payload asks for leave an attempt, and else failed, with its last message in the dead-letter
    -- queue. The main and the retry queue are empty again.
    pub accepted-Settles :
        (w v u : World) (a : WebhookAccepted) (most patience k rounds : ℕ)
        → receive_webhook rt d request w ≡ (ok a, v)
        → a.status ≡ accepted
        → request.header rt.settings.webhook_id_header ≡ some delivery
        → delivery ≢ ""
        → IsUnique w.events
        → waiting rt.settings (log w.history) ≡ []
        → u.events ≡ v.events
        → log u.history ≡ log v.history
        → IsSettled rt u.history
        → IsCalm rt
        → IsBroker rt patience
        → ((n : ℕ) → HasCodecs rt a.event_id (pos n))
        → rt.settings.rabbitmq_max_delivery_attempts ≡ pos most
        → 1 ≤ most
        → most * (patience + 1) ≤ rounds
        → HasFailures rt d.payload k
        → Settles rt a.event_id most k 1 0
            (dead_letters rt.settings (log w.history))
            (run_worker rt rounds u)
    accepted-Settles w v u a most patience k rounds ran is header given unique idle rows logs ready
          calm broker codecs bound some_attempt enough failing =
        let h = accepted-Handed w v a ran is idle in
        let s = accepted-Stored rt d request delivery w v a ran is header given unique in
        let all : most + 1 - 1 ≡ most = omega arith in
        subst
          (λ n.
            Settles rt a.event_id most k 1 n (dead_letters rt.settings (log w.history))
              (run_worker rt rounds u))
          s.untried
          (run_worker-Settles rt calm on patience broker named a.event_id codecs most bound rounds 1
            k u s.row (dead_letters rt.settings (log w.history)) ready some_attempt (rw all enough)
            (ap (find_event a.event_id) rows ∙ s.found)
            (subst (λ f. HasFailures rt f k) (sym s.has_payload) failing)
            (ap (waiting rt.settings) logs ∙ h.holds)
            (ap (dead_letters rt.settings) logs ∙ h.dropped))
