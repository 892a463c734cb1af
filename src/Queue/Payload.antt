-- ===== src/Queue/Payload.antt =====
-- The message payloads of app/queue.py (`_queue_payload`, `_decode_payload`) and the Python
-- conversions that they use.
use webhook_ingestion_servic.Prelude.{◌≡◌, Option, none, some, ℤ, pos, if◌then◌else◌}
use webhook_ingestion_servic.Json.{
  Json, null, bool, num, float, text, arr, obj, Fields, end, field, get,
}
use webhook_ingestion_servic.Events.{Uuid}
use webhook_ingestion_servic.Runtime.{
  Runtime, Bytes, Outcome, ok, raise, Exn, value_error, type_error, key_error, attribute_error,
  overflow_error, unicode_error,
}

-- Results of pure code that may raise.
infixl 5 ◌>>=◌
abbrev ◌>>=◌ {ℓ κ} : {A : Type ℓ} {B : Type κ} → Outcome A → (A → Outcome B) → Outcome B
ok a >>= f = f a
raise e >>= f = raise e

abbrev or_raise {ℓ} : {A : Type ℓ} → Option A → Exn → Outcome A
or_raise none e = raise e
or_raise (some a) e = ok a

module _ (rt : Runtime) where
  -- `int(x)`
  unfoldable pub int_of_json : Json → Outcome ℤ
  int_of_json (bool b) = ok (pos (if b then 1 else 0))
  int_of_json (num n) = ok n
  int_of_json (float x) = or_raise x.truncated overflow_error
  int_of_json (text s) = or_raise (rt.int_of_str s) (value_error "invalid literal for int()")
  int_of_json null = raise type_error
  int_of_json (arr xs) = raise type_error
  int_of_json (obj xs) = raise type_error

  -- `uuid.UUID(x)`
  unfoldable pub uuid_of_json : Json → Outcome Uuid
  uuid_of_json (text s) =
      or_raise (rt.uuid_of_str s) (value_error "badly formed hexadecimal UUID string")
  uuid_of_json null = raise type_error
  uuid_of_json (bool b) = raise attribute_error
  uuid_of_json (num n) = raise attribute_error
  uuid_of_json (float x) = raise attribute_error
  uuid_of_json (arr xs) = raise attribute_error
  uuid_of_json (obj xs) = raise attribute_error

  -- The object that a message carries.
  unfoldable pub envelope_fields : Uuid → ℤ → Fields
  envelope_fields event_id attempt =
      field "event_id" (text (rt.str_of_uuid event_id)) (field "attempt" (num attempt) end)

  unfoldable pub queue_payload : Uuid → ℤ → Bytes
  unfolding envelope_fields
  queue_payload event_id attempt =
      rt.encode_utf8 (rt.json_dumps (obj (envelope_fields event_id attempt)))

  -- `payload.get("attempt", 1)`
  abbrev pub attempt_of : Fields → Json
  attempt_of payload = elim (get "attempt" payload) [ none ↦ num (pos 1) | some v ↦ v ]

  unfoldable pub decode_fields : Json → Outcome (Uuid × ℤ)
  unfolding get int_of_json uuid_of_json
  decode_fields (obj payload) = do
    event_id ← or_raise (get "event_id" payload) key_error
    id ← uuid_of_json event_id
    attempt ← int_of_json (attempt_of payload)
    ok (id, attempt)
  decode_fields null = raise type_error
  decode_fields (bool b) = raise type_error
  decode_fields (num n) = raise type_error
  decode_fields (float x) = raise type_error
  decode_fields (text s) = raise type_error
  decode_fields (arr xs) = raise type_error

  unfoldable pub decode_payload : Bytes → Outcome (Uuid × ℤ)
  unfolding decode_fields
  decode_payload raw_body = do
    body ← or_raise (rt.decode_utf8 raw_body) unicode_error
    payload ← or_raise (rt.json_loads body) (value_error "Expecting value")
    decode_fields payload

-- What the code relies on of the text encodings, for the message of one event and attempt: each is
-- undone by its inverse.
pub record HasCodecs (rt : Runtime) (event_id : Uuid) (attempt : ℤ) : Type 0 where
  pub utf8 :
      rt.decode_utf8 (queue_payload rt event_id attempt)
      ≡ some (rt.json_dumps (obj (envelope_fields rt event_id attempt)))
  pub json :
      rt.json_loads (rt.json_dumps (obj (envelope_fields rt event_id attempt)))
      ≡ some (obj (envelope_fields rt event_id attempt))
  pub uuid : rt.uuid_of_str (rt.str_of_uuid event_id) ≡ some event_id

-- A message that was written for an event and an attempt reads back as the two, where UTF-8, JSON and
-- UUIDs read back what they wrote for this message.
pub decode_payload-queue_payload :
    (rt : Runtime) (event_id : Uuid) (attempt : ℤ)
    → HasCodecs rt event_id attempt
    → decode_payload rt (queue_payload rt event_id attempt) ≡ ok (event_id, attempt)
unfolding decode_payload envelope_fields
decode_payload-queue_payload rt event_id attempt h =
    rw (h.utf8, h.json, or_raise, ◌>>=◌) (rw (h.uuid, or_raise, ◌>>=◌))
