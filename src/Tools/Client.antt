-- ===== src/Tools/Client.antt =====
-- The HTTP client of tools/smoke_check.py and tools/send_signed_webhook.py: a program that asks the
-- service, sleeps and reads the clock.
pub mod Runs
use Prim.Native.Nat.{◌/◌}
use Prim.Native.String.{◌++◌}
use webhook_ingestion_servic.Prelude.{
  ℕ, String, Bool, true, false, Option, none, some, List, [], ◌∷◌, ◌==◌, str_eq, if◌then◌else◌,
}
use webhook_ingestion_servic.Json.{Json, Float, Fields, end, obj}
use webhook_ingestion_servic.Tools.Text.{rstrip_slash}

-- A `urllib.request.Request`: the body is the text before it is encoded.
pub record HttpCall : Type 0 where
  pub method : String
  pub url : String
  pub headers : List (String × String)
  pub body : Option String

-- What `urlopen` does: it gives a response, it raises HTTPError, or it raises otherwise (no
-- connection, a timeout, a body that is not UTF-8).
pub data Reply : Type 0 where
  response http_status : (status : ℕ) (content : String) → Reply
  unreachable : Reply

-- What the program has done, the latest first; a sleep is in milliseconds.
pub data Deed : Type 0 where
  asked : HttpCall → Deed
  slept : ℕ → Deed

abbrev pub Trace : Type 0
Trace = List Deed

pub data Failure : Type 0 where
  runtime_error : String → Failure
  http_error : (status : ℕ) (content : String) → Failure
  url_error json_error key_error type_error attribute_error : Failure

-- The network and the Python libraries: the answers, `time.time()` in milliseconds, `str` of an
-- integer, HMAC-SHA256, `json`, the printed form of a value, the `==` of two decoded values and the order of a float and a number.
pub record Net : Type 0 where
  pub answer : Trace → HttpCall → Reply
  pub time : Trace → ℕ
  pub str_of_int : ℕ → String
  pub hmac_sha256_hex : String → String → String
  pub json_dumps : Json → String
  pub repr : Json → String
  pub json_compact : Json → String
  pub json_loads : String → Option Json
  pub equal : Json → Json → Bool
  pub float_is_less : Float → ℕ → Bool
  pub float_is_more : Float → ℕ → Bool

-- A program that may still be running when its fuel is used up.
pub data Ending (A : Type 0) : Type 0 where
  ok : A → Ending A
  raise : Failure → Ending A
  unfinished : Ending A

abbrev pub Client : Type 0 → Type 0
Client A = Trace → Ending A × Trace

abbrev pub pure : {A : Type 0} → A → Client A
pure a t = (ok a, t)

abbrev pub throw : {A : Type 0} → Failure → Client A
throw e t = (raise e, t)

abbrev pub continue : {A B : Type 0} → (A → Client B) → Ending A → Client B
continue f (ok a) t = f a t
continue f (raise e) t = (raise e, t)
continue f unfinished t = (unfinished, t)

infixl 5 ◌>>=◌ ◌>>◌
abbrev pub ◌>>=◌ : {A B : Type 0} → Client A → (A → Client B) → Client B
(m >>= f) t = let (r, t') = m t in continue f r t'

abbrev pub ◌>>◌ : {A B : Type 0} → Client A → Client B → Client B
m >> n = m >>= λ _. n

abbrev pub or_throw : {A : Type 0} → Option A → Failure → Client A
or_throw none e = throw e
or_throw (some a) e = pure a

module _ (net : Net) where
  -- The status and the text of the answer, whether it is an error or not.
  unfoldable pub exchange : HttpCall → Client Reply
  exchange call t = (ok (net.answer t call), asked call ∷ t)

  -- `with urlopen(request) as response`: the status and the decoded text.
  abbrev pub opened : Reply → Client (ℕ × String)
  opened (response status content) = pure (status, content)
  opened (http_status status content) = throw (http_error status content)
  opened unreachable = throw url_error

  unfoldable pub urlopen : HttpCall → Client (ℕ × String)
  unfolding exchange
  urlopen call = exchange call >>= opened

  unfoldable pub sleep : ℕ → Client (Unit {0})
  sleep milliseconds t = (ok tt, slept milliseconds ∷ t)

  unfoldable pub now : Client ℕ
  now t = (ok (net.time t), t)

  -- `str(int(time.time()))`
  unfoldable pub unix_time : Client String
  unfolding now
  unix_time = do milliseconds ← now; pure (net.str_of_int (milliseconds / 1000))

  -- `send_webhook` of tools/send_signed_webhook.py
  unfoldable pub send_webhook : (base_url secret api_key : String) → Json → String → Client Json
  unfolding urlopen unix_time
  send_webhook base_url secret api_key payload delivery_id = do
    let body = net.json_compact payload
    timestamp ← unix_time
    (status, content) ← urlopen (record {
      method = "POST";
      url = rstrip_slash base_url ++ "/webhook";
      headers =
          ("Content-Type", "application/json")
          ∷ ("X-API-KEY", api_key)
          ∷ ("X-Webhook-ID", delivery_id)
          ∷ ("X-Webhook-Timestamp", timestamp)
          ∷ ("X-Webhook-Signature", net.hmac_sha256_hex secret (timestamp ++ ("." ++ body)))
          ∷ [];
      body = some body;
    })
    or_throw (net.json_loads content) json_error
