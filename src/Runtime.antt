-- ===== src/Runtime.antt =====
-- What a process of the service computes with: its exceptions, the calls that it makes to the broker
-- and the database, its state, and the actions that the modelled functions are.
pub mod Rules
pub mod Calm
pub mod Raises
use webhook_ingestion_servic.Prelude.{
  ℕ, String, Bool, true, false, Option, none, some, List, [], ◌∷◌, ℤ, if◌then◌else◌,
}
use webhook_ingestion_servic.Json.{Json}
use webhook_ingestion_servic.Settings.{Settings}
use webhook_ingestion_servic.Events.{Uuid, Event}
use webhook_ingestion_servic.Metrics.{Metrics}

abbrev pub Bytes : Type 0
Bytes = List ℕ

-- A message that the broker has handed out: its body, and the tag by which it is acknowledged.
pub record Message : Type 0 where
  pub body : Bytes
  pub delivery_tag : ℕ

-- The exceptions that the modelled code raises or lets pass. `external` is whatever a library call
-- raises; `http` is FastAPI's HTTPException with its status and detail.
pub data Exn : Type 0 where
  http : ℕ → String → Exn
  queue_unavailable : String → Exn
  runtime_error : String → Exn
  value_error : String → Exn
  type_error key_error attribute_error overflow_error unicode_error : Exn
  integrity_error multiple_results : Exn
  external : Exn

-- The arguments with which the retry queue is declared.
pub record QueueArguments : Type 0 where
  pub message_ttl : ℤ
  pub dead_letter_exchange : String
  pub dead_letter_routing_key : String

-- The calls that leave the process.
pub data Call : Type 0 where
  import_aio_pika import_redis : Call
  connect_robust open_channel : Call
  set_qos : ℕ → Call
  declare_exchange get_exchange : String → Call
  declare_queue : String → Option QueueArguments → Call
  bind_queue : String → String → Call
  passive_declare : String → Call
  publish : String → Bytes → Call
  get_message : String → Call
  ack : Message → Call
  close_channel close_connection : Call
  redis_from_url redis_ping redis_aclose : Call
  rpush : String → String → Call
  blpop : String → Call
  llen : String → Call
  db_connect db_execute db_commit db_refresh db_rollback : Call
  db_create_all db_dispose : Call

-- One entry of a process's history: a call that returned, or one that raised.
pub data Step : Type 0 where
  did : Call → Step
  refused : Call → Step

-- The latest call stands first.
abbrev pub History : Type 0
History = List Step

-- What is not the repository's code: the settings of the process, and the answers of the libraries,
-- the broker, the database server and the clock. An answer may depend on all calls made before.
pub record Runtime : Type 0 where
  pub settings : Settings
  pub fails : History → Call → Bool
  pub next_message : History → String → Option Message
  pub popped : History → Option String
  pub list_length : History → String → ℕ
  pub message_count : History → String → ℕ
  pub channel_is_closed : History → Bool
  pub ping_reply : History → Bool
  pub time : History → ℤ
  pub now : History → ℕ
  pub uuid4 : History → Uuid
  pub order_by_received_at_desc : List Event → List Event
  pub hmac_sha256_hex : String → String → String
  pub decode_utf8 : Bytes → Option String
  pub encode_utf8 : String → Bytes
  pub int_of_str : String → Option ℤ
  pub str_of_uuid : Uuid → String
  pub uuid_of_str : String → Option Uuid
  pub json_dumps : Json → String
  pub json_loads : String → Option Json
  pub describe : Exn → String

-- The state of one process with the committed rows of the table `events`. The four flags say which
-- of the module globals of app/queue.py are set; `background` holds the tasks that a request has
-- added and that run after its response.
pub record World : Type 0 where
  pub history : History
  pub events : List Event
  pub redis_client : Bool
  pub rabbitmq_connection : Bool
  pub rabbitmq_channel : Bool
  pub topology_ready : Bool
  pub background : List Uuid
  pub metrics : Metrics

pub data Outcome {ℓ} (A : Type ℓ) : Type ℓ where
  ok : A → Outcome A
  raise : Exn → Outcome A

-- What was done before an exception stays done, so the state comes back beside it.
abbrev pub Action {ℓ} : Type ℓ → Type ℓ
Action A = World → Outcome A × World

module _ {ℓ} {A : Type ℓ} where
  abbrev pub pure : A → Action A
  pure a w = (ok a, w)

  abbrev pub throw : Exn → Action A
  throw e w = (raise e, w)

  abbrev pub gets : (World → A) → Action A
  gets f w = (ok (f w), w)

  abbrev handle : (Exn → Action A) → Outcome A → Action A
  handle f (ok a) = pure a
  handle f (raise e) = f e

  -- `try: m except Exception as e: f e`
  abbrev pub try_except : Action A → (Exn → Action A) → Action A
  try_except m f w = let (r, w') = m w in handle f r w'

  abbrev only_unavailable : (Exn → Action A) → Exn → Action A
  only_unavailable f (queue_unavailable s) = f (queue_unavailable s)
  only_unavailable f e = throw e

  -- `try: m except QueueUnavailableError as e: f e`
  abbrev pub except_unavailable : Action A → (Exn → Action A) → Action A
  except_unavailable m f = try_except m (only_unavailable f)

  -- A library function that raises `e` where it has no result.
  abbrev pub or_throw : Option A → Exn → Action A
  or_throw none e = throw e
  or_throw (some a) e = pure a

infixl 5 ◌>>=◌ ◌>>◌
abbrev pub continue {ℓ κ} : {A : Type ℓ} {B : Type κ} → (A → Action B) → Outcome A → Action B
continue f (ok a) = f a
continue f (raise e) = throw e

abbrev pub ◌>>=◌ {ℓ κ} : {A : Type ℓ} {B : Type κ} → Action A → (A → Action B) → Action B
◌>>=◌ m f w = let (r, w') = m w in continue f r w'

abbrev pub ◌>>◌ {ℓ κ} : {A : Type ℓ} {B : Type κ} → Action A → Action B → Action B
m >> k = m >>= λ _. k

abbrev pub modify : (World → World) → Action (Unit {0})
modify f w = (ok tt, f w)

-- A metrics function, run for its effect.
abbrev pub record_metric : (Metrics → Metrics) → Action (Unit {0})
record_metric f = modify (λ w. record w { metrics = f w.metrics })

module _ (rt : Runtime) where
  -- A call that leaves the process: it returns or raises as the runtime decides, and is noted.
  unfoldable pub perform : Call → Action (Unit {0})
  perform c w =
      if rt.fails w.history c
      then (raise external, record w { history = refused c ∷ w.history })
      else (ok tt, record w { history = did c ∷ w.history })

  -- A call with a result, which is read at the history before the call.
  unfoldable pub query {ℓ} : {A : Type ℓ} → Call → (History → A) → Action A
  unfolding perform
  query c f = do before ← gets (λ w. w.history); perform c; pure (f before)
