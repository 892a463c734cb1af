-- ===== src/Queue/Consume/Redrive.antt =====
-- The redrive of the dead-letter queue (app/queue.py).
use webhook_ingestion_servic.Prelude.{
  ℕ, zero, suc, ◌≤◌, ◌≡◌, refl, ap, subst, inl, inr, Option, none, some, List, [], ◌∷◌, length, ℤ,
  pos, arith, Bool-cases,
}
use webhook_ingestion_servic.Events.{Uuid}
use webhook_ingestion_servic.Metrics.{record_redrive}
use webhook_ingestion_servic.Runtime.{
  Runtime, World, Action, Outcome, ok, raise, Exn, Message, get_message, passive_declare, ack,
  perform, query, pure, record_metric, ◌>>=◌, ◌>>◌, continue,
}
use webhook_ingestion_servic.Runtime.Rules.{
  Keeps, SameLog, SameRows, Entry, sent, acked, log, perform-SameLog, query-SameLog, query-SameRows,
  Keeps-bind, SameRows-frame, rows_rules,
}
use webhook_ingestion_servic.Queue.Payload.{queue_payload, decode_payload}
use webhook_ingestion_servic.Queue.Topology.{publish_to_rabbitmq}
use webhook_ingestion_servic.Queue.Topology.Frames.{
  ensure_rabbitmq_topology-SameLog, ensure_rabbitmq_topology-SameRows,
}
use webhook_ingestion_servic.Queue.Consume.{
  redrive_message, redrive_loop, redrive_dead_letter, listed,
}
use webhook_ingestion_servic.Queue.Consume.Frames.{redrive_message-SameRows}
use webhook_ingestion_servic.Queue.Consume.Reroute.{Tells, publish_to_rabbitmq-Tells}

-- From one log to another, the events `ids` were put back: each was published to the main queue as a
-- first attempt before its old message was acknowledged. Messages that cannot be decoded were
-- acknowledged only.
pub data Redriven (rt : Runtime) : List Uuid → List Entry → List Entry → Type 0 where
  finished : {l : List Entry} → Redriven rt [] l l
  dropped :
      {ids : List Uuid} {l l' : List Entry} (m : Message) (e : Exn)
      → decode_payload rt m.body ≡ raise e
      → Redriven rt ids (acked m ∷ l) l'
      → Redriven rt ids l l'
  moved :
      {ids : List Uuid} {l l' : List Entry} (m : Message) (i : Uuid) (n : ℤ)
      → decode_payload rt m.body ≡ ok (i, n)
      → Redriven rt ids
          (acked m ∷ sent rt.settings.event_queue_name (queue_payload rt i (pos 1)) ∷ l)
          l'
      → Redriven rt (i ∷ ids) l l'

module _ (rt : Runtime) where
  -- What one message of the dead-letter queue leaves in the log.
  abbrev Moves : Message → World → Outcome (Option Uuid) × World → Type 0
  Moves m w (ok (some i), v) =
      (n : ℤ) × (decode_payload rt m.body ≡ ok (i, n))
      × (log v.history
          ≡ acked m
            ∷ sent rt.settings.event_queue_name (queue_payload rt i (pos 1))
            ∷ log w.history)
  Moves m w (ok none, v) =
      (e : Exn) × (decode_payload rt m.body ≡ raise e) × (log v.history ≡ acked m ∷ log w.history)
  Moves m w (raise x, v) = Unit

  published :
      (m : Message) (i : Uuid) (n : ℤ) (w : World) (p : Outcome (Unit {0}) × World)
      → decode_payload rt m.body ≡ ok (i, n)
      → Tells (sent rt.settings.event_queue_name (queue_payload rt i (pos 1))) w p
      → Moves m w (continue (λ _. do perform rt (ack m); pure (some i)) p.0 p.1)
  unfolding perform
  published m i n w (ok done, u) read told = elim (Bool-cases (rt.fails u.history (ack m))) [
    | inl down ↦ rw down tt
    | inr up ↦ rw up (n, read, ap (λ l. acked m ∷ l) told)
  ]
  published m i n w (raise x, u) read told = tt

  redrive_message-Moves :
      (m : Message) (r : Outcome (Uuid × ℤ)) (w : World)
      → decode_payload rt m.body ≡ r
      → Moves m w (redrive_message rt m r w)
  unfolding redrive_message perform
  redrive_message-Moves m (ok (i, n)) w read =
      published m i n w (publish_to_rabbitmq rt i rt.settings.event_queue_name (pos 1) w) read
        (publish_to_rabbitmq-Tells rt i rt.settings.event_queue_name (pos 1) w)
  redrive_message-Moves m (raise e) w read = elim (Bool-cases (rt.fails w.history (ack m))) [
    | inl down ↦ rw down tt
    | inr up ↦ rw up (e, read, refl)
  ]

  abbrev Drives : ℕ → World → Outcome (List Uuid) × World → Type 0
  Drives limit w (ok ids, v) =
      (length ids ≤ limit) × Redriven rt ids (log w.history) (log v.history)
  Drives limit w (raise x, v) = Unit

  shift-Redriven :
      (ids : List Uuid) {l l' k : List Entry} → l ≡ k → Redriven rt ids l l' → Redriven rt ids k l'
  shift-Redriven ids {l' = l'} e h = subst (λ x. Redriven rt ids x l') e h

  -- One message and the rest of the loop.
  joined :
      (limit : ℕ) (m : Message) (w : World) (found : Option Uuid) (u : World)
      (q : Outcome (List Uuid) × World)
      → Moves m w (ok found, u)
      → Drives limit u q
      → Drives (suc limit) w (continue (λ others. pure (listed rt found others)) q.0 q.1)
  joined limit m w none u (ok ids, v) (e, read, moves) (short, h) =
      (omega arith, dropped m e read (shift-Redriven ids moves h))
  joined limit m w (some i) u (ok ids, v) (n, read, moves) (short, h) =
      (omega arith, moved m i n read (shift-Redriven ids moves h))
  joined limit m w none u (raise x, v) moves h = tt
  joined limit m w (some i) u (raise x, v) moves h = tt

  redriven :
      (limit : ℕ) (m : Message) (w : World) (p : Outcome (Option Uuid) × World)
      → Moves m w p
      → ((u : World) → Drives limit u (redrive_loop rt limit u))
      → Drives (suc limit) w (
          continue
            (λ found. do others ← redrive_loop rt limit; pure (listed rt found others))
            p.0
            p.1)
  redriven limit m w (ok found, u) moves ih =
      joined limit m w found u (redrive_loop rt limit u) moves (ih u)
  redriven limit m w (raise x, u) moves ih = tt

  -- The body of the loop, for what the dead-letter queue gave.
  abbrev loop_body : ℕ → Option Message → Action (List Uuid)
  loop_body limit none = pure []
  loop_body limit (some m) = do
    found ← redrive_message rt m (decode_payload rt m.body)
    others ← redrive_loop rt limit
    pure (listed rt found others)

  loop_body-Drives :
      (limit : ℕ) (o : Option Message) (w u : World)
      → log u.history ≡ log w.history
      → ((x : World) → Drives limit x (redrive_loop rt limit x))
      → Drives (suc limit) w (loop_body limit o u)
  loop_body-Drives limit none w u same ih =
      (omega arith, shift-Redriven [] {l' = log u.history} same finished)
  loop_body-Drives limit (some m) w u same ih = from_here (loop_body limit (some m) u) (
      redriven limit m u (redrive_message rt m (decode_payload rt m.body) u)
        (redrive_message-Moves m (decode_payload rt m.body) u refl) ih)
    where
      from_here :
          (q : Outcome (List Uuid) × World) → Drives (suc limit) u q → Drives (suc limit) w q
      from_here (ok ids, v) (short, h) = (short, shift-Redriven ids same h)
      from_here (raise x, v) h = tt

  asked :
      (limit : ℕ) (w : World) (p : Outcome (Option Message) × World)
      → log p.1.history ≡ log w.history
      → ((x : World) → Drives limit x (redrive_loop rt limit x))
      → Drives (suc limit) w (continue (loop_body limit) p.0 p.1)
  asked limit w (ok o, u) same ih = loop_body-Drives limit o w u same ih
  asked limit w (raise x, u) same ih = tt

  abbrev ask : Action (Option Message)
  ask =
      query rt (get_message rt.settings.dead_letter_queue_name)
        (λ h. rt.next_message h rt.settings.dead_letter_queue_name)

  redrive_loop_body : (limit : ℕ) → redrive_loop rt (suc limit) ≡ (ask >>= loop_body limit)
  unfolding redrive_loop
  redrive_loop_body limit = refl

  redrive_loop-Drives : (limit : ℕ) (w : World) → Drives limit w (redrive_loop rt limit w)
  redrive_loop-Drives zero w = unfold redrive_loop in (omega arith, finished)
  redrive_loop-Drives (suc limit) w = rw redrive_loop_body (
      asked limit w (ask w)
        ((query-SameLog rt (get_message rt.settings.dead_letter_queue_name) _ refl).at w).log_eq
        (redrive_loop-Drives limit))

  Drives-bind :
      {A : Type 0} (limit : ℕ) (m : Action A) (f : A → Action (List Uuid)) (w : World)
      → Keeps SameLog m
      → ((a : A) (u : World) → Drives limit u (f a u))
      → Drives limit w ((m >>= f) w)
  Drives-bind {A} limit m f w quiet later = step (m w) (quiet.at w).log_eq
    where
      shifted :
          (u : World) (q : Outcome (List Uuid) × World)
          → log u.history ≡ log w.history
          → Drives limit u q
          → Drives limit w q
      shifted u (ok ids, v) same (short, h) = (short, shift-Redriven ids same h)
      shifted u (raise x, v) same h = tt

      step :
          (p : Outcome A × World)
          → log p.1.history ≡ log w.history
          → Drives limit w (continue f p.0 p.1)
      step (ok a, u) same = shifted u (f a u) same (later a u)
      step (raise x, u) same = tt

  counted :
      (limit : ℕ) (w : World) (q : Outcome (List Uuid) × World)
      → Drives limit w q
      → Drives limit w
          (continue (λ ids. do record_metric (record_redrive (length ids)); pure ids) q.0 q.1)
  counted limit w (ok ids, v) h = h
  counted limit w (raise x, v) h = h

  redrive_dead_letter-Drives :
      (limit : ℕ) (w : World)
      → rt.settings.task_queue_backend ≡ "rabbitmq"
      → Drives limit w (redrive_dead_letter rt limit w)
  unfolding redrive_dead_letter
  redrive_dead_letter-Drives limit w on = simp on (
      Drives-bind limit _ _ w (ensure_rabbitmq_topology-SameLog rt) λ _ u.
        Drives-bind limit _ _ u
          (perform-SameLog rt (passive_declare rt.settings.dead_letter_queue_name) refl)
          λ _ v. counted limit v (redrive_loop rt limit v) (redrive_loop-Drives limit v))

  pub redrive_dead_letter-Redriven :
      (limit : ℕ) (ids : List Uuid) (w v : World)
      → rt.settings.task_queue_backend ≡ "rabbitmq"
      → redrive_dead_letter rt limit w ≡ (ok ids, v)
      → (length ids ≤ limit) × Redriven rt ids (log w.history) (log v.history)
  redrive_dead_letter-Redriven limit ids w v on e =
      subst (Drives limit w) e (redrive_dead_letter-Drives limit w on)

  loop_body-SameRows :
      (limit : ℕ) (o : Option Message)
      → Keeps SameRows (redrive_loop rt limit)
      → Keeps SameRows (loop_body limit o)
  loop_body-SameRows limit none ih = search rows_rules
  loop_body-SameRows limit (some m) ih = search (rows_rules, redrive_message-SameRows) depth 8

  redrive_loop-SameRows : (limit : ℕ) → Keeps SameRows (redrive_loop rt limit)
  redrive_loop-SameRows zero = unfold redrive_loop in search rows_rules
  redrive_loop-SameRows (suc limit) = rw redrive_loop_body (
      Keeps-bind SameRows-frame ask (loop_body limit) (query-SameRows rt _ _)
        (λ o. loop_body-SameRows limit o (redrive_loop-SameRows limit)))

  pub redrive_dead_letter-SameRows : (limit : ℕ) → Keeps SameRows (redrive_dead_letter rt limit)
  unfolding redrive_dead_letter
  redrive_dead_letter-SameRows limit =
      search (rows_rules, ensure_rabbitmq_topology-SameRows, redrive_loop-SameRows) depth 10
