-- ===== src/Worker/Settles.antt =====
-- How a run of the worker of app/worker.py over a queue with one event ends, where no external call
-- raises.
use webhook_ingestion_servic.Prelude.{
  ℕ, zero, suc, ◌+◌, ◌-◌, ◌≤◌, ◌<◌, ◌≡◌, refl, sym, ap, ◌∙◌, subst, ◌⊎◌, inl, inr, true, some, List,
  [], ◌∷◌, pos, arith,
}
use native.Mathlib.Decide.{dec_lt}
use Prim.Native.Nat.{◌*◌}
use native.Mathlib.Nat.{mul-le-mul_left}
use webhook_ingestion_servic.Worker.Polls.{IsSettled, polls}
use webhook_ingestion_servic.Worker.Polling.{Gives, Idles-IsSettled, dequeue_event-Polls}
use webhook_ingestion_servic.Queue.Consume.{dequeue_event}
use webhook_ingestion_servic.Events.{Uuid, ProcessingStatus, processed, failed, Event}
use webhook_ingestion_servic.Runtime.{Runtime, World, Outcome, Bytes, continue}
use webhook_ingestion_servic.Runtime.Calm.{IsCalm}
use webhook_ingestion_servic.Runtime.Rules.{Entry, log}
use webhook_ingestion_servic.Queue.Payload.{HasCodecs, queue_payload}
use webhook_ingestion_servic.Processor.{find_event}
use webhook_ingestion_servic.Processor.Transient.{
  HasFailures, HasFailures-set, after_failure, completed,
}
use webhook_ingestion_servic.Worker.{worker_round, worker_rounds, run_worker}
use webhook_ingestion_servic.Worker.Broker.{IsBroker, HasQueues, waiting, dead_letters}
use webhook_ingestion_servic.Worker.Returns.{run_worker-rabbitmq}
use webhook_ingestion_servic.Worker.Turns.{Turns, polled_nothing, later_rounds}
use webhook_ingestion_servic.Worker.Runs.{idle, turn_working, turn_retried, turn_dropped}

-- A run returned and left nothing in the main queue; the event has a status and a number of
-- attempts, and the dead-letter queue holds the texts.
pub record Rests (rt : Runtime) (i : Uuid) (status : ProcessingStatus) (attempts : ℕ)
    (dead : List Bytes) (p : Outcome (Unit {0}) × World) : Type 0 where
  pub row : Event
  pub turns : Turns rt i row [] dead p
  pub has_status : row.processing_status ≡ status
  pub counted : row.processing_attempts ≡ attempts

-- From the attempt `n` on, with `k` failures to come, `a` attempts counted, and the texts in the
-- dead-letter queue.
abbrev pub Settles :
    (rt : Runtime) → Uuid → (most k n a : ℕ) → List Bytes → Outcome (Unit {0}) × World → Type 0
Settles rt i most k n a dead p =
    ((k + n ≤ most) × Rests rt i processed (a + (k + 1)) dead p)
    ⊎ ((most < k + n)
        × Rests rt i failed (a + (most + 1 - n)) (queue_payload rt i (pos most) ∷ dead) p)

module _ (rt : Runtime) (calm : IsCalm rt) (on : rt.settings.task_queue_backend ≡ "rabbitmq")
    (patience : ℕ) (broker : IsBroker rt patience) (named : HasQueues rt.settings) (i : Uuid)
    (codecs : (n : ℕ) → HasCodecs rt i (pos n)) (most : ℕ)
    (bound : rt.settings.rabbitmq_max_delivery_attempts ≡ pos most) where
  abbrev body : ℕ → Bytes
  body n = queue_payload rt i (pos n)

  one_left : (n : ℕ) → n ≤ most → 1 ≤ most + 1 - n
  one_left n le = omega arith

  -- A round that takes a message leaves enough rounds for the other attempts.
  fewer :
      (n : ℕ)
      → n < most
      → (most + 1 - suc n) * (patience + 1) + (patience + 1) ≤ (most + 1 - n) * (patience + 1)
  fewer n more =
      let one : most + 1 - suc n + 1 ≤ most + 1 - n = omega arith in
      omega (arith, mul-le-mul_left (patience + 1) one)

  early :
      {idle : ℕ} (l : List Entry) (x : Bytes)
      → waiting rt.settings l ≡ x ∷ []
      → (waiting rt.settings l ≡ []) ⊎ (idle < patience)
      → idle < patience
  early l x holds (inl none_left) = absurd (cc)
  early l x holds (inr less) = less

  shift :
      (k n a : ℕ) (dead : List Bytes) (p : Outcome (Unit {0}) × World)
      → n < most
      → Settles rt i most k (suc n) (a + 1) dead p
      → Settles rt i most (suc k) n a dead p
  shift k n a dead p less (inl (fits, x)) = inl (
    omega arith,
    record {
      row = x.row;
      turns = x.turns;
      has_status = x.has_status;
      counted = x.counted ∙ omega arith;
    },
  )
  shift k n a dead p less (inr (short, x)) = inr (
    omega arith,
    record {
      row = x.row;
      turns = x.turns;
      has_status = x.has_status;
      counted = x.counted ∙ omega arith;
    },
  )

  module _ (fuel n : ℕ) (w : World) (e : Event) (dead : List Bytes) (ready : IsSettled rt w.history)
      (g : Gives rt calm on patience broker w (dequeue_event rt w))
      (was : find_event i w.events ≡ some e)
      (holds : waiting rt.settings (log w.history) ≡ body n ∷ [])
      (dropped : dead_letters rt.settings (log w.history) ≡ dead) where
    -- The round of the last attempt, and the rounds over the empty queue after it.
    last_round :
        (k : ℕ)
        → n ≡ most
        → HasFailures rt e.payload (suc k)
        → Rests rt i failed
            (e.processing_attempts + (most + 1 - n))
            (body most ∷ dead)
            (worker_rounds rt (suc fuel) w)
    unfolding worker_rounds
    last_round k last h =
        let t =
          turn_dropped rt calm on patience broker named i codecs n w e dead was ready g holds
            dropped k (bound ∙ ap (λ x. pos x) (sym last)) h in
        let u = (worker_round rt w).1 in
        let row = after_failure rt true k e in
        subst
          (λ x.
            Rests rt i failed (e.processing_attempts + (most + 1 - n)) (body x ∷ dead)
              (worker_rounds rt (suc fuel) w))
          last
          (later_rounds rt
            (Rests rt i failed (e.processing_attempts + (most + 1 - n)) (body n ∷ dead))
            (worker_rounds rt fuel) (worker_round rt w) t.returned
            (record {
              row = row;
              turns =
                  idle rt calm on patience broker named i codecs fuel u row (body n ∷ dead)
                    t.settled t.found t.holds t.dropped;
              has_status = refl;
              counted = omega arith;
            }))

    -- The rest of the run after a failing attempt, where others are left.
    abbrev Rest : ℕ → Type 0
    Rest k =
        (v : World) (e' : Event)
        → IsSettled rt v.history
        → find_event i v.events ≡ some e'
        → HasFailures rt e'.payload k
        → waiting rt.settings (log v.history) ≡ body (suc n) ∷ []
        → dead_letters rt.settings (log v.history) ≡ dead
        → Settles rt i most k (suc n) e'.processing_attempts dead (worker_rounds rt fuel v)

    -- A round that takes the message of the attempt `n`.
    attempt_round :
        (k : ℕ)
        → n ≤ most
        → HasFailures rt e.payload k
        → ((j : ℕ) → n < most → Rest j)
        → Settles rt i most k n e.processing_attempts dead (worker_rounds rt (suc fuel) w)
    unfolding worker_rounds
    attempt_round zero le h later =
        let (now, t) =
          turn_working rt calm on patience broker named i codecs n w e dead was ready g holds
            dropped h in
        let u = (worker_round rt w).1 in
        later_rounds rt (Settles rt i most 0 n e.processing_attempts dead) (worker_rounds rt fuel)
          (worker_round rt w) t.returned
          (inl (
            omega arith,
            record {
              row = completed rt now e;
              turns =
                  idle rt calm on patience broker named i codecs fuel u (completed rt now e) dead
                    t.settled t.found t.holds t.dropped;
              has_status = refl;
              counted = omega arith;
            },
          ))
    attempt_round (suc k) le h later = elim (dec_lt n most) [
      | yes more ↦
          (let (final, t) =
              turn_retried rt calm on patience broker named i codecs n w e dead was ready g holds
                dropped k most bound more h in
            let u = (worker_round rt w).1 in
            let row = after_failure rt final k e in
            later_rounds rt (Settles rt i most (suc k) n e.processing_attempts dead)
              (worker_rounds rt fuel) (worker_round rt w) t.returned
              (shift k n e.processing_attempts dead (worker_rounds rt fuel u) more (
                later k more u row t.settled t.found (HasFailures-set rt e.payload k h.unforced)
                  t.holds t.dropped)))
      | no less ↦ inr (omega arith, last_round k (omega arith) h)
    ]

  worker_rounds-Settles :
      (fuel n k : ℕ) (w : World) (e : Event) (dead : List Bytes)
      → IsSettled rt w.history
      → n ≤ most
      → (most + 1 - n) * (patience + 1) ≤ fuel + (polls rt w.history).idle
      → (most + 1 - n) * (patience + 1) ≤ fuel + patience
      → find_event i w.events ≡ some e
      → HasFailures rt e.payload k
      → waiting rt.settings (log w.history) ≡ body n ∷ []
      → dead_letters rt.settings (log w.history) ≡ dead
      → Settles rt i most k n e.processing_attempts dead (worker_rounds rt fuel w)
  unfolding worker_rounds worker_round
  worker_rounds-Settles zero n k w e dead ready le enough enough' was h holds dropped =
      absurd (omega (arith, mul-le-mul_left (patience + 1) (one_left n le)))
  worker_rounds-Settles (suc fuel) n k w e dead ready le enough enough' was h holds dropped =
      elim (dequeue_event-Polls rt calm on patience broker w ready) [
        | inl t ↦
            polled_nothing rt
              (λ p.
                Settles rt i most k n e.processing_attempts dead
                  (continue (λ _. worker_rounds rt fuel) p.0 p.1))
              (dequeue_event rt w) t.nothing
              (worker_rounds-Settles fuel n k (dequeue_event rt w).1 e dead
                (Idles-IsSettled rt calm on patience broker w (dequeue_event rt w) ready t) le
                (omega (arith, t.waited, enough))
                (omega (arith, early (log w.history) (body n) holds t.early, enough))
                (ap (find_event i) t.rows ∙ was) h (ap (waiting rt.settings) t.same_log ∙ holds)
                (ap (dead_letters rt.settings) t.same_log ∙ dropped))
        | inr g ↦
            attempt_round fuel n w e dead ready g was holds dropped k le h
              (λ j more v e' ready' was' h' holds' dropped'.
                worker_rounds-Settles fuel (suc n) j v e' dead ready' (omega arith)
                  (omega (arith, fewer n more, enough')) (omega (arith, fewer n more, enough')) was'
                  h' holds' dropped')
      ]

  -- The worker's loop over RabbitMQ, where no external call raises, the broker holds a message back
  -- for at most `patience` idle polls in a row, and at most `most` attempts are made. The worker holds
  -- no message, and the main and the retry queue hold one, of the attempt `n ≤ most` of an event whose
  -- payload forces no failure and asks for `k`. After `patience + 1` rounds for each attempt that is
  -- left, the worker has returned from each round, and the main and the retry queue are empty: if
  -- `k + n ≤ most` the event is processed, with `k + 1` more attempts counted and nothing new in the
  -- dead-letter queue. If not, it has failed, `most + 1 - n` attempts are counted, and the message of
  -- the last attempt is in the dead-letter queue.
  pub run_worker-Settles :
      (rounds n k : ℕ) (w : World) (e : Event) (dead : List Bytes)
      → IsSettled rt w.history
      → n ≤ most
      → (most + 1 - n) * (patience + 1) ≤ rounds
      → find_event i w.events ≡ some e
      → HasFailures rt e.payload k
      → waiting rt.settings (log w.history) ≡ queue_payload rt i (pos n) ∷ []
      → dead_letters rt.settings (log w.history) ≡ dead
      → Settles rt i most k n e.processing_attempts dead (run_worker rt rounds w)
  run_worker-Settles rounds n k w e dead ready le enough was h holds dropped =
      rw (run_worker-rabbitmq rt on rounds) (
        worker_rounds-Settles rounds n k w e dead ready le (omega (arith, enough))
          (omega (arith, enough)) was h holds dropped)
