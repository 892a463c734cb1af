-- ===== src/Sample/Broker.antt =====
-- The runtime of Sample.antt with a broker that keeps the messages and holds each back for two polls, and with text encodings that read
-- back what they wrote for the messages of the sample's event: the text of an attempt has that many
-- letters.
use Prim.Native.String.{count}
use Prim.Native.String.count
use Prim.Native.String as Str
use webhook_ingestion_servic.Prelude.{
  ltb, if◌then◌else◌, ◌≤◌, inl, inr, Bool-cases, ℕ, zero, suc, ◌≡◌, refl, ap, str_eq, arith, String,
  true, false, Option, none, some, List, [], ◌∷◌, pos,
}
use webhook_ingestion_servic.Json.{Json, num, text, obj, field, end}
use webhook_ingestion_servic.Runtime.{
  Runtime, World, Bytes, Message, did, publish, get_message, History,
}
use webhook_ingestion_servic.Runtime.Rules.{log}
use webhook_ingestion_servic.Queue.Payload.{HasCodecs, queue_payload, envelope_fields}
use webhook_ingestion_servic.Worker.Broker.{IsBroker, Replies, HasQueues, waiting}
use webhook_ingestion_servic.Worker.Polls.{Polls, got, polls, IsSettled}
use webhook_ingestion_servic.Sample.{sample_runtime, sample_settings, stocked}

abbrev letters : ℕ → String
letters zero = Str.[]
letters (suc n) = Str.◌∷◌ "a" (letters n)

count-letters : (n : ℕ) → count (letters n) ≡ n
count-letters zero = refl
count-letters (suc n) = rw (count.cons "a" (letters n)) (ap (λ m. suc m) (count-letters n))

abbrev encode_json : Json → String
encode_json (obj (field i j (field a (num (pos n)) end))) = letters n
encode_json _ = ""

abbrev decode_json : String → Option Json
decode_json s = some (obj (field "event_id" (text "1") (field "attempt" (num (pos (count s))) end)))

abbrev decode_bytes : Bytes → Option String
decode_bytes [] = none
decode_bytes (n ∷ rest) = some (letters n)

abbrev first : List Bytes → Option Message
first [] = none
first (body ∷ rest) = some (record { body = body; delivery_tag = 0 })

-- The polls since a message was last published.
abbrev polls_since_publish : History → ℕ
polls_since_publish [] = 0
polls_since_publish (did (get_message queue) ∷ h) = suc (polls_since_publish h)
polls_since_publish (did (publish key body) ∷ h) = 0
polls_since_publish (s ∷ h) = polls_since_publish h

-- The first message, from the third poll after a publish on.
abbrev delayed : ℕ → List Bytes → Option Message
delayed n l = if ltb n 2 then none else first l

abbrev pub broker_runtime : Runtime
broker_runtime = record sample_runtime {
  next_message = λ h queue. delayed (polls_since_publish h) (waiting sample_settings (log h));
  json_dumps = encode_json;
  json_loads = decode_json;
  encode_utf8 = λ s. count s ∷ [];
  decode_utf8 = decode_bytes;
}

got-idle :
    (queue : String) (o : Option Message) (p : Polls) (n : ℕ)
    → p.idle ≤ n
    → (got broker_runtime queue o p).idle ≤ suc n
got-idle queue none p n h = omega arith
got-idle queue (some m) p n h = omega arith

idle_bound : (h : History) → (polls broker_runtime h).idle ≤ polls_since_publish h
unfolding polls
idle_bound [] = omega arith
idle_bound (did (get_message queue) ∷ h) =
    got-idle queue (broker_runtime.next_message h queue) (polls broker_runtime h)
      (polls_since_publish h) (idle_bound h)
idle_bound (did (publish key body) ∷ h) = omega arith
idle_bound (s ∷ h) = idle_bound h

delayed-Replies : (n idle : ℕ) (l : List Bytes) → idle ≤ n → Replies 2 idle (delayed n l) l
delayed-Replies n idle l h = elim (Bool-cases (ltb n 2)) [
  | inl early ↦ rw early (inr (ground arith))
  | inr late ↦ rw late (first-Replies l)
]
  where
    first-Replies : (l : List Bytes) → Replies 2 idle (first l) l
    first-Replies [] = inl refl
    first-Replies (body ∷ rest) = inl refl

pub broker_runtime-IsBroker : IsBroker broker_runtime 2
broker_runtime-IsBroker = record {
  replies = λ h settled.
      delayed-Replies (polls_since_publish h) (polls broker_runtime h).idle
        (waiting sample_settings (log h)) (idle_bound h);
}

differ : true ≡ false → ⊥
differ h = ground arith

pub sample_queues : HasQueues sample_settings
sample_queues = record {
  main-ne-dead = λ p. differ (ap (λ s. str_eq s "webhook-events") p);
  retry-ne-dead = λ p. differ (ap (λ s. str_eq s "webhook-events.retry") p);
}

pub sample_codecs : (n : ℕ) → HasCodecs broker_runtime 1 (pos n)
unfolding queue_payload envelope_fields
sample_codecs n = record {
  utf8 = rw (count-letters n) refl;
  json = rw (count-letters n) refl;
  uuid = refl;
}

-- The sample's row, with the message of its first attempt in the main queue.
abbrev pub queued : World
queued = record stocked {
  history = did (publish "webhook-events" (queue_payload broker_runtime 1 (pos 1))) ∷ [];
}

pub queued-IsSettled : IsSettled broker_runtime queued.history
unfolding polls
queued-IsSettled = record { returned = refl; own = refl }
