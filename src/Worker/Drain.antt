-- ===== src/Worker/Drain.antt =====
-- Runs of the worker of app/worker.py over any content of its queues, where no external call raises.
use mathlib.Core.List.{map-append}
use native.Mathlib.Decide.{dec_lt}
use native.Mathlib.Nat.{mul-le-mul_left}
use Prim.Native.Nat.{◌*◌}
use webhook_ingestion_servic.Prelude.{
  ◌<◌, ◌⊎◌, inl, inr, subst, ℕ, zero, suc, ◌+◌, ◌≤◌, ◌≡◌, refl, sym, ap, ◌∙◌, Option, none, some,
  List, [], ◌∷◌, ◌++◌, All, pos, arith,
}
use webhook_ingestion_servic.Runtime.{
  Runtime, World, Outcome, ok, raise, Bytes, Message, pure, continue,
}
use webhook_ingestion_servic.Runtime.Calm.{IsCalm, IsOk}
use webhook_ingestion_servic.Runtime.Rules.{Entry, sent, acked, log}
use webhook_ingestion_servic.Queue.Payload.{queue_payload}
use webhook_ingestion_servic.Queue.Consume.{Route, dequeue_event}
use webhook_ingestion_servic.Queue.Consume.Reroute.{successor}
use webhook_ingestion_servic.Worker.{handle_envelope, worker_round, worker_rounds, run_worker}
use webhook_ingestion_servic.Worker.Delivery.{from_message, Delivers, handle_envelope-Delivers}
use webhook_ingestion_servic.Worker.Returns.{handle_envelope-Returns, run_worker-rabbitmq}
use webhook_ingestion_servic.Worker.Broker.{
  IsBroker, HasQueues, In, waiting, remove_first, waiting_acked_any, waiting_retried_any,
  waiting_dead_any,
}
use webhook_ingestion_servic.Worker.Polls.{acks, polls, IsSettled}
use webhook_ingestion_servic.Worker.Polls.Frames.{handle_envelope-GetsNone}
use webhook_ingestion_servic.Worker.Polling.{Gives, Idles-IsSettled, dequeue_event-Polls}
use webhook_ingestion_servic.Worker.Turns.{
  polled, polled_nothing, later_rounds, acks-successor, successor_below, successor_last,
}
use webhook_ingestion_servic.Worker.Jobs.{
  Job, attempts_left, attempts_left-append, All-append, messages, IsDue, Picks, In-Picks,
}

module _ (rt : Runtime) where
  -- A run returned, and the main queue is empty.
  abbrev pub Drains : Outcome (Unit {0}) × World → Type 0
  Drains p = (p.0 ≡ ok tt) × (waiting rt.settings (log p.1.history) ≡ [])

  module _ (calm : IsCalm rt) (on : rt.settings.task_queue_backend ≡ "rabbitmq") (patience : ℕ)
      (broker : IsBroker rt patience) (named : HasQueues rt.settings) (most : ℕ)
      (bound : rt.settings.rabbitmq_max_delivery_attempts ≡ pos most) where
    -- A round returned, the worker holds no message, and fewer attempts are left for what is in the
    -- queues then.
    record Steps (jobs : List Job) (p : Outcome (Unit {0}) × World) : Type 0 where
      rest : List Job
      returned : p.0 ≡ ok tt
      holds : waiting rt.settings (log p.1.history) ≡ messages rt rest
      allowed : All (IsDue rt most) rest
      fewer : attempts_left most rest + 1 ≤ attempts_left most jobs
      settled : IsSettled rt p.1.history

    module _ (jobs : List Job) (w : World) (m : Message) (picks : Picks rt most m.body jobs)
        (member : In m.body (waiting rt.settings (log w.history)))
        (queued : waiting rt.settings (log w.history) ≡ messages rt jobs) where
      abbrev body : ℕ → Bytes
      body n = queue_payload rt picks.i (pos n)

      removes : remove_first m.body (waiting rt.settings (log w.history)) ≡ messages rt picks.rest
      removes = ap (remove_first m.body) queued ∙ picks.removed

      after_completion :
          (v : World)
          → log v.history ≡ acked m ∷ log w.history
          → IsSettled rt v.history
          → Steps jobs (ok tt, v)
      after_completion v told settled = record {
        rest = picks.rest;
        returned = refl;
        holds =
            ap (waiting rt.settings) told
            ∙ waiting_acked_any rt.settings named m (log w.history)
            ∙ removes;
        allowed = picks.others;
        fewer = omega (arith, picks.left, picks.due.0);
        settled = settled;
      }

      sends : {x y : Entry} → x ≡ y → acked m ∷ x ∷ log w.history ≡ acked m ∷ y ∷ log w.history
      sends e = ap (λ x. acked m ∷ x ∷ log w.history) e

      last_successor :
          picks.n ≡ most
          → successor rt picks.i (pos picks.n)
            ≡ sent rt.settings.dead_letter_queue_name (body picks.n)
      last_successor last = successor_last rt picks.i picks.n (bound ∙ ap (λ x. pos x) (sym last))

      after_failure :
          (v : World)
          → log v.history ≡ acked m ∷ successor rt picks.i (pos picks.n) ∷ log w.history
          → IsSettled rt v.history
          → Steps jobs (ok tt, v)
      after_failure v told settled = elim (dec_lt picks.n most) [
        | yes more ↦ record {
          rest = picks.rest ++ ((picks.i, suc picks.n) ∷ []);
          returned = refl;
          holds =
              ap (waiting rt.settings)
                (told ∙ sends (successor_below rt picks.i most bound picks.n more))
              ∙ waiting_retried_any rt.settings named m (body (suc picks.n)) (log w.history) member
              ∙ ap (λ l. l ++ (body (suc picks.n) ∷ [])) removes
              ∙ sym (map-append _ picks.rest ((picks.i, suc picks.n) ∷ []));
          allowed =
              All-append (IsDue rt most) picks.rest (picks.i, suc picks.n) picks.others
                (omega arith, picks.due.1);
          fewer = omega (
            arith,
            attempts_left-append most picks.rest ((picks.i, suc picks.n) ∷ []),
            picks.left,
          );
          settled = settled;
        }
        | no less ↦ record {
          rest = picks.rest;
          returned = refl;
          holds =
              ap (waiting rt.settings) (told ∙ sends (last_successor (last less)))
              ∙ waiting_dead_any rt.settings named m (body picks.n) (log w.history)
              ∙ removes;
          allowed = picks.others;
          fewer = omega (arith, picks.left, picks.due.0);
          settled = settled;
        }
      ]
        where
          last : ¬ (picks.n < most) → picks.n ≡ most
          last less = omega (arith, picks.due.0)

      rest_of_round :
          (u : World) (p : Outcome (Option Route) × World)
          → log u.history ≡ log w.history
          → IsOk p.0
          → Delivers rt picks.i (pos picks.n) m u p
          → ((l : List Entry)
              → log p.1.history ≡ acked m ∷ l
              → acks l ≡ acks (log w.history)
              → IsSettled rt p.1.history)
          → Steps jobs (continue (λ _. pure tt) p.0 p.1)
      rest_of_round u (ok none, v) same fine h settles =
          let told = h.0 ∙ ap (λ l. acked m ∷ l) same in
          after_completion v told (settles (log w.history) told refl)
      rest_of_round u (ok (some route), v) same fine h settles =
          let told = h.1 ∙ ap (λ l. acked m ∷ successor rt picks.i (pos picks.n) ∷ l) same in
          after_failure v told (
            settles (successor rt picks.i (pos picks.n) ∷ log w.history) told
              (acks-successor rt picks.i (pos picks.n) (log w.history)))
      rest_of_round u (raise x, v) same fine h settles = absurd fine

    round-Steps :
        (jobs : List Job) (w : World)
        → IsSettled rt w.history
        → All (IsDue rt most) jobs
        → waiting rt.settings (log w.history) ≡ messages rt jobs
        → Gives rt calm on patience broker w (dequeue_event rt w)
        → Steps jobs (worker_round rt w)
    unfolding worker_round
    round-Steps jobs w ready allowed queued g =
        let m = g.message in
        let p = In-Picks rt most m.body jobs allowed (subst (In m.body) queued g.member) in
        let t = g.opens p.i p.n (p.due.1 p.n) p.body_eq in
        let u = (dequeue_event rt w).1 in
        let handled = handle_envelope rt (from_message p.i (pos p.n) m) u in
        let gets = (handle_envelope-GetsNone rt on p.i (pos p.n) m).at u in
        polled rt (Steps jobs) (from_message p.i (pos p.n) m) (dequeue_event rt w) t.taken (
          rest_of_round jobs w m p g.member queued u handled t.same_log
            ((handle_envelope-Returns rt calm on p.i (pos p.n) m).at u)
            (handle_envelope-Delivers rt p.i (pos p.n) m u on)
            (λ l told same. record {
              returned =
                  omega (arith, gets.taken_eq, t.got_one, ready.returned, ap acks told, same);
              own = gets.strays_eq ∙ t.got_own ∙ ready.own;
            }))

    rounds_idle :
        (rounds : ℕ) (w : World)
        → IsSettled rt w.history
        → waiting rt.settings (log w.history) ≡ []
        → Drains (worker_rounds rt rounds w)
    unfolding worker_rounds worker_round
    rounds_idle zero w ready holds = (refl, holds)
    rounds_idle (suc rounds) w ready holds =
        elim (dequeue_event-Polls rt calm on patience broker w ready) [
          | inl t ↦
              polled_nothing rt (λ p. Drains (continue (λ _. worker_rounds rt rounds) p.0 p.1))
                (dequeue_event rt w) t.nothing
                (rounds_idle rounds (dequeue_event rt w).1
                  (Idles-IsSettled rt calm on patience broker w (dequeue_event rt w) ready t)
                  (ap (waiting rt.settings) t.same_log ∙ holds))
          | inr g ↦ absurd (subst (In g.message.body) holds g.member)
        ]

    -- A job is left, so a round is.
    some_round :
        (job : Job) (jobs : List Job)
        → All (IsDue rt most) (job ∷ jobs)
        → patience + 1 ≤ attempts_left most (job ∷ jobs) * (patience + 1)
    some_round (i, n) jobs ((le, codecs), others) =
        let one : 1 ≤ attempts_left most ((i, n) ∷ jobs) = omega arith in
        omega (arith, mul-le-mul_left (patience + 1) one)

    fewer_rounds : (x y : ℕ) → x + 1 ≤ y → x * (patience + 1) + (patience + 1) ≤ y * (patience + 1)
    fewer_rounds x y h = omega (arith, mul-le-mul_left (patience + 1) h)

    -- The poll of a queue that holds a message gave none: it is held back.
    held_back :
        {idle : ℕ} (l : List Entry) (job : Job) (jobs : List Job)
        → waiting rt.settings l ≡ messages rt (job ∷ jobs)
        → (waiting rt.settings l ≡ []) ⊎ (idle < patience)
        → idle < patience
    held_back l job jobs holds (inl none_left) = absurd (cc)
    held_back l job jobs holds (inr less) = less

    rounds_drain :
        (rounds : ℕ) (jobs : List Job) (w : World)
        → IsSettled rt w.history
        → All (IsDue rt most) jobs
        → attempts_left most jobs * (patience + 1) ≤ rounds + (polls rt w.history).idle
        → attempts_left most jobs * (patience + 1) ≤ rounds + patience
        → waiting rt.settings (log w.history) ≡ messages rt jobs
        → Drains (worker_rounds rt rounds w)
    unfolding worker_rounds worker_round
    rounds_drain rounds [] w ready allowed enough enough' holds = rounds_idle rounds w ready holds
    rounds_drain zero (job ∷ jobs) w ready allowed enough enough' holds =
        absurd (omega (arith, some_round job jobs allowed))
    rounds_drain (suc rounds) (job ∷ jobs) w ready allowed enough enough' holds =
        elim (dequeue_event-Polls rt calm on patience broker w ready) [
          | inl t ↦
              polled_nothing rt (λ p. Drains (continue (λ _. worker_rounds rt rounds) p.0 p.1))
                (dequeue_event rt w) t.nothing
                (rounds_drain rounds (job ∷ jobs) (dequeue_event rt w).1
                  (Idles-IsSettled rt calm on patience broker w (dequeue_event rt w) ready t)
                  allowed (omega (arith, t.waited, enough))
                  (omega (arith, held_back (log w.history) job jobs holds t.early, enough))
                  (ap (waiting rt.settings) t.same_log ∙ holds))
          | inr g ↦
              (let s = round-Steps (job ∷ jobs) w ready allowed holds g in
                let f = fewer_rounds _ _ s.fewer in
                later_rounds rt Drains (worker_rounds rt rounds) (worker_round rt w) s.returned (
                  rounds_drain rounds s.rest (worker_round rt w).1 s.settled s.allowed
                    (omega (arith, f, enough')) (omega (arith, f, enough')) s.holds))
        ]

    -- The worker's loop over RabbitMQ, where no external call raises and the broker holds a message
    -- back for at most `patience` idle polls in a row. The worker holds no message, and the main and
    -- the retry queue hold messages of allowed attempts, whatever their number, of known events or
    -- unknown, with every payload. Then the worker returns from each round, and after `patience + 1`
    -- rounds for each attempt that is left for all of them together, the main and the retry queue are
    -- empty.
    pub run_worker-Drains :
        (rounds : ℕ) (jobs : List Job) (w : World)
        → IsSettled rt w.history
        → All (IsDue rt most) jobs
        → attempts_left most jobs * (patience + 1) ≤ rounds
        → waiting rt.settings (log w.history) ≡ messages rt jobs
        → Drains (run_worker rt rounds w)
    run_worker-Drains rounds jobs w ready allowed enough holds =
        rw (run_worker-rabbitmq rt on rounds) (
          rounds_drain rounds jobs w ready allowed (omega (arith, enough)) (omega (arith, enough))
            holds)
