-- ===== src/Worker/Broker.antt =====
-- The messages that RabbitMQ holds for the worker of app/worker.py, by what was published and
-- acknowledged, and what the broker is assumed to do with them.
use webhook_ingestion_servic.Prelude.{
  ℕ, ◌<◌, ap, ◌⊎◌, inl, inr, Bool-cases, ◌≡◌, ◌≢◌, refl, String, Bool, true, false, ◌&&◌, ◌||◌,
  Option, none, some, List, [], ◌∷◌, ◌++◌, ◌==◌, str_eq, eq_iff, arith, if◌then◌else◌,
}
use webhook_ingestion_servic.Settings.{Settings}
use webhook_ingestion_servic.Runtime.{Runtime, Bytes, Message, History}
use webhook_ingestion_servic.Runtime.Rules.{Entry, sent, pushed, acked, log}
use webhook_ingestion_servic.Worker.Polls.{IsSettled, polls}

abbrev pub same_bytes : Bytes → Bytes → Bool
same_bytes [] [] = true
same_bytes (a ∷ x) (b ∷ y) = a == b && same_bytes x y
same_bytes _ _ = false

pub same_bytes_refl : (x : Bytes) → same_bytes x x ≡ true
same_bytes_refl [] = refl
same_bytes_refl (a ∷ x) = ground (arith, same_bytes_refl x)

pub same_bytes_sound : (x y : Bytes) → same_bytes x y ≡ true → x ≡ y
same_bytes_sound [] [] h = refl
same_bytes_sound [] (b ∷ y) h = absurd (cc)
same_bytes_sound (a ∷ x) [] h = absurd (cc)
same_bytes_sound (a ∷ x) (b ∷ y) h =
    let head : a ≡ b = ground arith in
    let rest : x ≡ y = same_bytes_sound x y (ground arith) in rw (head, rest) refl

-- The list without the first text that is the given one.
abbrev pub remove_first : Bytes → List Bytes → List Bytes
remove_first x [] = []
remove_first x (y ∷ l) = if same_bytes x y then l else y ∷ remove_first x l

module _ (s : Settings) where
  -- The main queue is fed by its own key, and by the retry queue when a message's delay is over.
  abbrev pub feeds_main : String → Bool
  feeds_main key = str_eq key s.event_queue_name || str_eq key s.retry_queue_name

  -- What the main queue and the retry queue hold together, in the order of publishing.
  unfoldable pub waiting : List Entry → List Bytes
  waiting [] = []
  waiting (sent key body ∷ l) = if feeds_main key then waiting l ++ (body ∷ []) else waiting l
  waiting (pushed key value ∷ l) = waiting l
  waiting (acked m ∷ l) = remove_first m.body (waiting l)

  -- What was put into the dead-letter queue, the latest first.
  unfoldable pub dead_letters : List Entry → List Bytes
  dead_letters [] = []
  dead_letters (sent key body ∷ l) =
      if str_eq key s.dead_letter_queue_name then body ∷ dead_letters l else dead_letters l
  dead_letters (pushed key value ∷ l) = dead_letters l
  dead_letters (acked m ∷ l) = dead_letters l

-- The text is among the list.
abbrev pub In : Bytes → List Bytes → Type 0
In x [] = ⊥
In x (y ∷ l) = (x ≡ y) ⊎ In x l

-- What a get may give, where the queue and the retry queue hold the texts: one of them, or nothing
-- where there is none, or where fewer polls than `patience` were idle since a message was last got or
-- published.
abbrev pub Replies : (patience idle : ℕ) → Option Message → List Bytes → Type 0
Replies patience idle none l = (l ≡ []) ⊎ (idle < patience)
Replies patience idle (some m) l = In m.body l

-- Assumed of RabbitMQ where every message that was got was acknowledged: a get on the main queue gives
-- a message that was published to it or to the retry queue and was not acknowledged, in any order. A
-- message in the retry queue is held back until its x-message-ttl is over; a poll takes time, so after
-- `patience` idle polls in a row none is held back any more. No other client takes messages from the
-- queues. While a message is not acknowledged, and after a redrive, nothing is assumed.
pub record IsBroker (rt : Runtime) (patience : ℕ) : Type 0 where
  pub replies :
      (h : History)
      → IsSettled rt h
      → Replies patience
          (polls rt h).idle
          (rt.next_message h rt.settings.event_queue_name)
          (waiting rt.settings (log h))

-- The three queues have different names.
pub record HasQueues (s : Settings) : Type 0 where
  pub main-ne-dead : s.event_queue_name ≢ s.dead_letter_queue_name
  pub retry-ne-dead : s.retry_queue_name ≢ s.dead_letter_queue_name

remove_first-append :
    (x y : Bytes) (l : List Bytes)
    → In x l
    → remove_first x (l ++ (y ∷ [])) ≡ remove_first x l ++ (y ∷ [])
remove_first-append x y [] h = absurd h
remove_first-append x y (z ∷ l) (inl is) = rw (is, same_bytes_refl z) refl
remove_first-append x y (z ∷ l) (inr h) = elim (Bool-cases (same_bytes x z)) [
  | inl same ↦ rw same refl
  | inr other ↦ rw other (ap (λ k. z ∷ k) (remove_first-append x y l h))
]

module _ (s : Settings) (named : HasQueues s) where
  pub feeds_main_retry : feeds_main s s.retry_queue_name ≡ true
  feeds_main_retry = ground (
    arith,
    eq_iff s.retry_queue_name s.retry_queue_name,
    eq_iff s.retry_queue_name s.event_queue_name,
  )

  pub feeds_main_dead : feeds_main s s.dead_letter_queue_name ≡ false
  feeds_main_dead = ground (
    arith,
    eq_iff s.dead_letter_queue_name s.event_queue_name,
    eq_iff s.dead_letter_queue_name s.retry_queue_name,
    named.main-ne-dead,
    named.retry-ne-dead,
  )

  feeds_main_itself : feeds_main s s.event_queue_name ≡ true
  feeds_main_itself = ground (arith, eq_iff s.event_queue_name s.event_queue_name)

  main_is_not_dead : str_eq s.event_queue_name s.dead_letter_queue_name ≡ false
  main_is_not_dead =
      ground (arith, eq_iff s.event_queue_name s.dead_letter_queue_name, named.main-ne-dead)

  pub retry_is_not_dead : str_eq s.retry_queue_name s.dead_letter_queue_name ≡ false
  retry_is_not_dead =
      ground (arith, eq_iff s.retry_queue_name s.dead_letter_queue_name, named.retry-ne-dead)

  -- After the first message in the queue was put into the retry queue as its successor and then
  -- acknowledged.
  pub waiting_retried :
      {rest : List Bytes} (m : Message) (body next : Bytes) (l : List Entry)
      → m.body ≡ body
      → waiting s l ≡ body ∷ rest
      → waiting s (acked m ∷ sent s.retry_queue_name next ∷ l) ≡ rest ++ (next ∷ [])
  unfolding waiting
  waiting_retried m body next l is held = simp (feeds_main_retry, held, is, same_bytes_refl)

  pub waiting_dead :
      {rest : List Bytes} (m : Message) (body next : Bytes) (l : List Entry)
      → m.body ≡ body
      → waiting s l ≡ body ∷ rest
      → waiting s (acked m ∷ sent s.dead_letter_queue_name next ∷ l) ≡ rest
  unfolding waiting
  waiting_dead m body next l is held = simp (feeds_main_dead, held, is, same_bytes_refl)

  pub waiting_acked :
      {rest : List Bytes} (m : Message) (body : Bytes) (l : List Entry)
      → m.body ≡ body
      → waiting s l ≡ body ∷ rest
      → waiting s (acked m ∷ l) ≡ rest
  unfolding waiting
  waiting_acked m body l is held = simp (held, is, same_bytes_refl)

  -- The same for any message in the queue.
  pub waiting_retried_any :
      (m : Message) (next : Bytes) (l : List Entry)
      → In m.body (waiting s l)
      → waiting s (acked m ∷ sent s.retry_queue_name next ∷ l)
        ≡ remove_first m.body (waiting s l) ++ (next ∷ [])
  unfolding waiting
  waiting_retried_any m next l h =
      rw feeds_main_retry (remove_first-append m.body next (waiting s l) h)

  pub waiting_dead_any :
      (m : Message) (next : Bytes) (l : List Entry)
      → waiting s (acked m ∷ sent s.dead_letter_queue_name next ∷ l)
        ≡ remove_first m.body (waiting s l)
  unfolding waiting
  waiting_dead_any m next l = rw feeds_main_dead refl

  pub waiting_acked_any :
      (m : Message) (l : List Entry) → waiting s (acked m ∷ l) ≡ remove_first m.body (waiting s l)
  unfolding waiting
  waiting_acked_any m l = refl

  pub dead_letters_retried :
      (m : Message) (next : Bytes) (l : List Entry)
      → dead_letters s (acked m ∷ sent s.retry_queue_name next ∷ l) ≡ dead_letters s l
  unfolding dead_letters
  dead_letters_retried m next l = simp retry_is_not_dead

  pub dead_letters_dead :
      (m : Message) (next : Bytes) (l : List Entry)
      → dead_letters s (acked m ∷ sent s.dead_letter_queue_name next ∷ l) ≡ next ∷ dead_letters s l
  unfolding dead_letters
  dead_letters_dead m next l =
      simp ((eq_iff s.dead_letter_queue_name s.dead_letter_queue_name).1 refl)

  -- After a message was put into the main queue, where it was empty.
  pub waiting_sent :
      (body : Bytes) (l : List Entry)
      → waiting s l ≡ []
      → waiting s (sent s.event_queue_name body ∷ l) ≡ body ∷ []
  unfolding waiting
  waiting_sent body l held = simp (feeds_main_itself, held)

  pub dead_letters_sent :
      (body : Bytes) (l : List Entry)
      → dead_letters s (sent s.event_queue_name body ∷ l) ≡ dead_letters s l
  unfolding dead_letters
  dead_letters_sent body l = simp main_is_not_dead
