-- ===== src/Worker/Polling.antt =====
-- What the worker of app/worker.py takes from RabbitMQ, where no external call raises.
use webhook_ingestion_servic.Prelude.{
  eq_iff, ◌⊎◌, inl, inr, ◌+◌, ◌<◌, arith, sym, ℕ, ◌≡◌, refl, ap, ◌∙◌, subst, String, Option, none,
  some, [], ◌∷◌, pos,
}
use webhook_ingestion_servic.Events.{Uuid}
use webhook_ingestion_servic.Runtime.{
  Runtime, World, Action, Outcome, ok, raise, Message, did, passive_declare, get_message, perform,
  query, continue, ◌>>=◌,
}
use webhook_ingestion_servic.Runtime.Calm.{IsCalm, IsOk, Returns, Returns-perform, perform_calm}
use webhook_ingestion_servic.Runtime.Rules.{
  Keeps, SameRows, SameLog, log, perform-SameRows, perform-SameLog,
}
use webhook_ingestion_servic.Queue.Payload.{
  HasCodecs, queue_payload, decode_payload, decode_payload-queue_payload,
}
use webhook_ingestion_servic.Queue.Topology.{ensure_rabbitmq_topology}
use webhook_ingestion_servic.Queue.Topology.Frames.{
  ensure_rabbitmq_topology-SameRows, ensure_rabbitmq_topology-SameLog,
}
use webhook_ingestion_servic.Queue.Topology.Returns.{ensure_rabbitmq_topology-Returns}
use webhook_ingestion_servic.Queue.Consume.{
  QueueEnvelope, open_next, dequeue_rabbitmq, dequeue_event,
}
use webhook_ingestion_servic.Worker.Delivery.{from_message}
use webhook_ingestion_servic.Worker.Broker.{IsBroker, Replies, In, waiting}
use webhook_ingestion_servic.Worker.Polls.{
  Polls, acks, IsSettled, SamePolls, polls, perform-SamePolls,
}
use webhook_ingestion_servic.Worker.Polls.Frames.{ensure_rabbitmq_topology-SamePolls}

-- The rows, the log and the polls are as they were.
pub record SameQueues (rt : Runtime) (w u : World) : Type 0 where
  pub rows : u.events ≡ w.events
  pub same_log : log u.history ≡ log w.history
  pub same_polls : polls rt u.history ≡ polls rt w.history

-- After an action that returns and leaves these alone, what follows decides.
pub quiet_bind {ℓ κ} :
    {A : Type ℓ} {B : Type κ} (rt : Runtime) (Q : Outcome B × World → Type 0) (m : Action A)
    (f : A → Action B) (w : World)
    → Returns m
    → Keeps SameRows m
    → Keeps SameLog m
    → Keeps (SamePolls rt) m
    → ((a : A) (u : World) → SameQueues rt w u → Q (f a u))
    → Q ((m >>= f) w)
quiet_bind {A} rt Q m f w returns rows logs gets after = go (m w) (returns.at w) (record {
  rows = (rows.at w).events;
  same_log = (logs.at w).log_eq;
  same_polls = (gets.at w).polls_eq;
})
  where
    go : (p : Outcome A × World) → IsOk p.0 → SameQueues rt w p.1 → Q (continue f p.0 p.1)
    go (ok a, u) fine same = after a u same
    go (raise x, u) fine same = absurd fine

module _ (rt : Runtime) (calm : IsCalm rt) (on : rt.settings.task_queue_backend ≡ "rabbitmq")
    (patience : ℕ) (broker : IsBroker rt patience) where
  abbrev main : String
  main = rt.settings.event_queue_name

  abbrev get_main : Action (Option Message)
  get_main = query rt (get_message main) (λ h. rt.next_message h main)

  get_main_calm :
      (w : World)
      → get_main w ≡ (
        ok (rt.next_message w.history main),
        record w { history = did (get_message main) ∷ w.history },
      )
  unfolding query
  get_main_calm w = rw (perform_calm rt calm (get_message main) w)

  -- The message of an attempt was taken, and nothing else has happened.
  pub record Takes (i : Uuid) (n : ℕ) (w : World) (m : Message)
      (p : Outcome (Option QueueEnvelope) × World) : Type 0 where
    pub taken : p.0 ≡ ok (some (from_message i (pos n) m))
    pub rows : p.1.events ≡ w.events
    pub same_log : log p.1.history ≡ log w.history
    pub got_one : (polls rt p.1.history).taken ≡ (polls rt w.history).taken + 1
    pub got_own : (polls rt p.1.history).strays ≡ (polls rt w.history).strays
    pub busy : (polls rt p.1.history).idle ≡ 0

  -- The queue gave nothing.
  pub record Idles (w : World) (p : Outcome (Option QueueEnvelope) × World) : Type 0 where
    pub nothing : p.0 ≡ ok none
    pub rows : p.1.events ≡ w.events
    pub same_log : log p.1.history ≡ log w.history
    pub got_none : (polls rt p.1.history).taken ≡ (polls rt w.history).taken
    pub got_own : (polls rt p.1.history).strays ≡ (polls rt w.history).strays
    pub waited : (polls rt p.1.history).idle ≡ (polls rt w.history).idle + 1
    pub early : (waiting rt.settings (log w.history) ≡ []) ⊎ ((polls rt w.history).idle < patience)

  -- After a poll that gave nothing the worker holds none, as before.
  pub Idles-IsSettled :
      (w : World) (p : Outcome (Option QueueEnvelope) × World)
      → IsSettled rt w.history
      → Idles w p
      → IsSettled rt p.1.history
  Idles-IsSettled w p r t = record {
    returned = t.got_none ∙ r.returned ∙ ap acks (sym t.same_log);
    own = t.got_own ∙ r.own;
  }

  -- The queue gave a message that it holds, which is opened next.
  pub record Gives (w : World) (p : Outcome (Option QueueEnvelope) × World) : Type 0 where
    pub message : Message
    pub member : In message.body (waiting rt.settings (log w.history))
    pub opens :
        (i : Uuid) (n : ℕ)
        → HasCodecs rt i (pos n)
        → message.body ≡ queue_payload rt i (pos n)
        → Takes i n w message p

  opened :
      (i : Uuid) (n : ℕ) (m : Message) (w : World)
      → HasCodecs rt i (pos n)
      → m.body ≡ queue_payload rt i (pos n)
      → open_next rt (some m) w ≡ (ok (some (from_message i (pos n) m)), w)
  unfolding open_next
  opened i n m w codecs is =
      let read : decode_payload rt m.body ≡ ok (i, pos n) =
        ap (decode_payload rt) is ∙ decode_payload-queue_payload rt i (pos n) codecs in
      rw read refl

  abbrev after_get : World → World
  after_get u = record u { history = did (get_message main) ∷ u.history }

  got_reply :
      (u w : World) (o : Option Message)
      → SameQueues rt w u
      → rt.next_message u.history main ≡ o
      → Replies patience (polls rt w.history).idle o (waiting rt.settings (log w.history))
      → Idles w (open_next rt o (after_get u)) ⊎ Gives w (open_next rt o (after_get u))
  unfolding open_next polls
  got_reply u w none same is h = inl (record {
    nothing = refl;
    rows = same.rows;
    same_log = same.same_log;
    got_none = rw is (ap (λ (p : Polls). p.taken) same.same_polls);
    got_own = rw is (ap (λ (p : Polls). p.strays) same.same_polls);
    waited = rw is (omega (arith, ap (λ (p : Polls). p.idle) same.same_polls));
    early = h;
  })
  got_reply u w (some m) same is h = inr (record {
    message = m;
    member = h;
    opens = λ i n codecs body. rw (opened i n m (after_get u) codecs body) (record {
      taken = refl;
      rows = same.rows;
      same_log = same.same_log;
      got_one = rw is (omega (arith, ap (λ (p : Polls). p.taken) same.same_polls));
      got_own = rw (is, (eq_iff main main).1 refl) (ap (λ (p : Polls). p.strays) same.same_polls);
      busy = rw is refl;
    });
  })

  replied :
      (w x : World)
      → SameQueues rt w x
      → IsSettled rt w.history
      → Idles w (open_next rt (rt.next_message x.history main) (after_get x))
        ⊎ Gives w (open_next rt (rt.next_message x.history main) (after_get x))
  replied w x same settled =
      let still : IsSettled rt x.history = record {
        returned =
            ap (λ (p : Polls). p.taken) same.same_polls
            ∙ settled.returned
            ∙ ap acks (sym same.same_log);
        own = ap (λ (p : Polls). p.strays) same.same_polls ∙ settled.own;
      } in
      got_reply x w (rt.next_message x.history main) same refl (
        subst
          (λ l.
            Replies patience (polls rt w.history).idle (rt.next_message x.history main)
              (waiting rt.settings l))
          same.same_log
          (subst
            (λ (p : Polls).
              Replies patience p.idle (rt.next_message x.history main)
                (waiting rt.settings (log x.history)))
            same.same_polls (broker.replies x.history still)))

  dequeue_event-rabbitmq : dequeue_event rt ≡ dequeue_rabbitmq rt
  unfolding dequeue_event
  dequeue_event-rabbitmq = simp on

  -- A poll of the worker that holds no message.
  pub dequeue_event-Polls :
      (w : World)
      → IsSettled rt w.history
      → Idles w (dequeue_event rt w) ⊎ Gives w (dequeue_event rt w)
  unfolding dequeue_rabbitmq
  dequeue_event-Polls w settled = rw dequeue_event-rabbitmq (
      quiet_bind rt (λ p. Idles w p ⊎ Gives w p) (ensure_rabbitmq_topology rt) _ w
        (ensure_rabbitmq_topology-Returns rt calm on) (ensure_rabbitmq_topology-SameRows rt)
        (ensure_rabbitmq_topology-SameLog rt) (ensure_rabbitmq_topology-SamePolls rt)
        λ _ u same.
          quiet_bind rt (λ p. Idles w p ⊎ Gives w p) (perform rt (passive_declare main)) _ u
            (Returns-perform rt calm _) (perform-SameRows rt _) (perform-SameLog rt _ refl)
            (perform-SamePolls rt _ refl)
            λ _ x same'. rw (get_main_calm x) (
              replied w x
                (record {
                  rows = same'.rows ∙ same.rows;
                  same_log = same'.same_log ∙ same.same_log;
                  same_polls = same'.same_polls ∙ same.same_polls;
                })
                settled))
