-- ===== src/Security.antt =====
-- app/security.py and the API key check of app/routers/webhooks.py, with the signing side of
-- tools/send_signed_webhook.py.
pub mod Signature
pub mod ApiKey
use Prim.Native.Char.{code}
use Prim.Native.String.{◌++◌}
use webhook_ingestion_servic.Prelude.{
  String, Bool, true, ◌&&◌, ◌||◌, Option, none, some, ℤ, ◌-ℤ◌, abs, ltb, ltb_ℤ, str_eq,
  if◌then◌else◌,
}
use webhook_ingestion_servic.Metrics.{record_signature_failure}
use webhook_ingestion_servic.Runtime.{
  Runtime, Action, Bytes, http, type_error, unicode_error, pure, throw, gets, or_throw,
  record_metric, ◌>>=◌, ◌>>◌,
}

-- All characters of a text are ASCII.
unfoldable pub is_ascii : String → Bool
is_ascii String.[] = true
is_ascii (String.◌∷◌ c s) = ltb (code c) 128 && is_ascii s

-- `hmac.compare_digest` on two texts: it refuses texts that are not ASCII with a TypeError.
unfoldable pub compare_digest : String → String → Action Bool
compare_digest a b = if is_ascii a && is_ascii b then pure (str_eq a b) else throw type_error

-- Record the failure and answer 401.
abbrev pub reject : String → Action (Unit {0})
reject detail = do record_metric record_signature_failure; throw (http 401 detail)

module _ (rt : Runtime) where
  -- f"{timestamp}.{body.decode('utf-8')}"
  unfoldable pub signed_payload : String → Bytes → Action String
  signed_payload timestamp body = do
    decoded ← or_throw (rt.decode_utf8 body) unicode_error
    pure (timestamp ++ ("." ++ decoded))

  -- The comparison with the expected signature.
  unfoldable pub check_digest : Bytes → String → String → Action (Unit {0})
  unfolding signed_payload compare_digest
  check_digest body timestamp signature = do
    payload ← signed_payload timestamp body
    same ← compare_digest signature (rt.hmac_sha256_hex rt.settings.webhook_secret payload)
    if same then pure tt else reject "Invalid webhook signature"

  -- `abs(now - timestamp_value) > settings.webhook_timestamp_tolerance_seconds`
  unfoldable pub outside_window : ℤ → ℤ → Bool
  outside_window now timestamp_value =
      ltb_ℤ rt.settings.webhook_timestamp_tolerance_seconds (abs (now -ℤ timestamp_value))

  -- The checks from the timestamp's value on.
  unfoldable pub check_window : Bytes → String → String → Option ℤ → Action (Unit {0})
  check_window body timestamp signature none = reject "Invalid webhook timestamp"
  check_window body timestamp signature (some timestamp_value) = do
    now ← gets (λ w. rt.time w.history)
    if outside_window now timestamp_value
        then reject "Webhook timestamp is outside the allowed tolerance window"
        else check_digest body timestamp signature

  -- Both headers have to be there and not empty.
  unfoldable pub check_headers : Bytes → Option String → Option String → Action (Unit {0})
  check_headers body (some timestamp) (some signature) =
      if str_eq timestamp "" || str_eq signature ""
      then reject "Missing webhook signature headers"
      else check_window body timestamp signature (rt.int_of_str timestamp)
  check_headers body none signature = reject "Missing webhook signature headers"
  check_headers body (some timestamp) none = reject "Missing webhook signature headers"

  -- An empty secret switches the check off.
  unfoldable pub verify_webhook_signature :
      Bytes → Option String → Option String → Action (Unit {0})
  verify_webhook_signature body timestamp signature =
      if str_eq rt.settings.webhook_secret ""
      then pure tt
      else check_headers body timestamp signature

  -- `require_api_key`: an empty key in the settings switches the check off.
  unfoldable pub require_api_key : Option String → Action (Unit {0})
  unfolding compare_digest
  require_api_key none =
      if str_eq rt.settings.api_key "" then pure tt else throw (http 401 "Invalid API key")
  require_api_key (some x_api_key) =
      if str_eq rt.settings.api_key ""
      then pure tt
      else if str_eq x_api_key ""
      then throw (http 401 "Invalid API key")
      else do
        same ← compare_digest x_api_key rt.settings.api_key
        if same then pure tt else throw (http 401 "Invalid API key")

  -- `build_signature` of tools/send_signed_webhook.py; `str_of_int` is Python's `str` of an integer.
  unfoldable pub build_signature : (ℤ → String) → String → Bytes → ℤ → Action String
  unfolding signed_payload
  build_signature str_of_int secret body timestamp = do
    payload ← signed_payload (str_of_int timestamp) body
    pure (rt.hmac_sha256_hex secret payload)
