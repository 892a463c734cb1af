-- ===== src/Tools/Smoke.antt =====
-- tools/smoke_check.py: the check of a running stack.
pub mod Waiting
pub mod Ends
use Prim.Native.String.{◌++◌}
use webhook_ingestion_servic.Prelude.{
  ℕ, zero, suc, ◌+◌, String, Bool, true, false, not, ◌&&◌, ◌||◌, Option, none, some, List, [], ◌∷◌,
  ◌==◌, ltb, leb, str_eq, ℤ, pos, negsuc, if◌then◌else◌,
}
use webhook_ingestion_servic.Json.{
  Json, null, bool, num, float, text, arr, obj, Items, nil, cons, Fields, end, field, get, truthy,
}
use webhook_ingestion_servic.Tools.Text.{contains, rstrip_slash}
use webhook_ingestion_servic.Tools.Client.{
  HttpCall, Reply, response, http_status, unreachable, Net, Client, Failure, runtime_error,
  url_error, json_error, key_error, type_error, attribute_error, unfinished, exchange, urlopen,
  sleep, now, unix_time, send_webhook, pure, throw, or_throw, ◌>>=◌, ◌>>◌,
}

-- The options of the command line.
pub record Args : Type 0 where
  pub base_url : String
  pub prometheus_url : String
  pub alertmanager_url : String
  pub grafana_url : String
  pub tempo_url : String
  pub api_key : String
  pub secret : String

-- `payload[key]`
abbrev pub item : String → Json → Client Json
item key (obj fields) = or_throw (get key fields) key_error
item key _ = throw type_error

-- `payload.get(key)`
abbrev pub get_item : String → Json → Client (Option Json)
get_item key (obj fields) = pure (get key fields)
get_item key _ = throw attribute_error

-- `value or 0`
abbrev pub or_zero : Option Json → Json
or_zero none = num (pos 0)
or_zero (some v) = if truthy v then v else num (pos 0)

-- `get(key, 0)`
abbrev pub default_zero : Option Json → Json
default_zero none = num (pos 0)
default_zero (some v) = v

module _ (net : Net) where
  -- `value < 1`; the text and the containers have no order with a number.
  unfoldable pub below_one : Json → Client Bool
  below_one (num (pos n)) = pure (ltb n 1)
  below_one (num (negsuc n)) = pure true
  below_one (bool b) = pure (not b)
  below_one (float x) = pure (net.float_is_less x 1)
  below_one _ = throw type_error

  -- `value >= 1`
  unfoldable pub at_least_one : Json → Client Bool
  at_least_one (num (pos n)) = pure (leb 1 n)
  at_least_one (num (negsuc n)) = pure false
  at_least_one (bool b) = pure b
  at_least_one (float x) = pure (net.float_is_more x 1 || net.equal (float x) (num (pos 1)))
  at_least_one _ = throw type_error

  -- The status and the text of an answer of the service, an error status or not.
  unfoldable pub status_of : Reply → Client (ℕ × String)
  status_of (response status content) = pure (status, content)
  status_of (http_status status content) = pure (status, content)
  status_of unreachable = throw url_error

  unfoldable pub check_status : String → ℕ → ℕ × String → Client Json
  check_status url expected_status (status, content) =
      if status == expected_status
      then (if str_eq content ""
          then pure (obj end)
          else or_throw (net.json_loads content) json_error)
      else throw (
          runtime_error (
            url
            ++ (" returned "
                ++ (net.str_of_int status
                    ++ (", expected " ++ (net.str_of_int expected_status ++ (": " ++ content)))))))

  -- The request that `request_json` makes.
  abbrev pub json_call : (url method : String) → List (String × String) → Option Json → HttpCall
  json_call url method headers none = record {
    method = method;
    url = url;
    headers = headers;
    body = none;
  }
  json_call url method headers (some payload) = record {
    method = method;
    url = url;
    headers = ("Content-Type", "application/json") ∷ headers;
    body = some (net.json_dumps payload);
  }

  unfoldable pub request_json :
      (url method : String) → List (String × String) → Option Json → ℕ → Client Json
  unfolding exchange status_of check_status
  request_json url method headers payload expected_status = do
    reply ← exchange net (json_call url method headers payload)
    answer ← status_of reply
    check_status url expected_status answer

  unfoldable pub request_ok : String → Client (Unit {0})
  unfolding urlopen
  request_ok url = do
    (status, content) ←
        urlopen net (record { method = "GET"; url = url; headers = []; body = none })
    if status == 200
        then pure tt
        else throw
            (runtime_error (url ++ (" returned " ++ (net.str_of_int status ++ " instead of 200"))))

  abbrev give_up : {A : Type 0} → Client A
  give_up t = (unfinished, t)

  -- The rounds of the loop, in milliseconds; none is a falsy result.
  unfoldable pub wait_rounds :
      {A : Type 0} → Client (Option A) → (timeout step started : ℕ) → String → ℕ → Client A
  unfolding sleep now
  wait_rounds predicate timeout step started description zero = give_up
  wait_rounds predicate timeout step started description (suc rounds) =
      let again = wait_rounds predicate timeout step started description rounds in
      do
        time ← now net
        if ltb time (started + timeout)
            then (do
              result ← predicate
              elim result [ none ↦ do sleep net step; again | some value ↦ pure value ])
            else throw (runtime_error ("Timed out waiting for " ++ description))

  unfoldable pub wait_for :
      {A : Type 0} → Client (Option A) → (timeout step : ℕ) → String → ℕ → Client A
  unfolding now wait_rounds
  wait_for predicate timeout step description rounds = do
    started ← now net
    wait_rounds predicate timeout step started description rounds

  abbrev pub demo : String → Fields → Json
  demo event_type payload = obj (
      field "source" (text "smoke")
        (field "event_type" (text event_type) (field "payload" (obj payload) end)))

  -- `value == "text"` of a field that must be there.
  abbrev pub field_is : String → String → Json → Client Bool
  field_is key expected j = do value ← item key j; pure (net.equal value (text expected))

  abbrev pub require : Bool → String → Client (Unit {0})
  require true message = pure tt
  require false message = throw (runtime_error message)

  module _ (args : Args) where
    abbrev pub base_url : String
    base_url = rstrip_slash args.base_url

    abbrev pub auth_headers : List (String × String)
    auth_headers = ("X-API-KEY", args.api_key) ∷ []

    abbrev get_json : String → Client Json
    get_json path = request_json (base_url ++ path) "GET" auth_headers none 200

    abbrev send : Json → String → Client Json
    send payload delivery_id =
        send_webhook net base_url args.secret args.api_key payload delivery_id

    -- The four deliveries; the answer to the last is passed on.
    unfoldable pub check_intake : Client Json
    unfolding request_json unix_time
    check_intake = do
      run_id ← unix_time net
      health ← request_json (base_url ++ "/health") "GET" [] none 200
      healthy ← field_is "status" "ok" health
      require healthy ("Health check failed: " ++ net.repr health)
      accepted ←
          send (demo "demo.accepted" (field "kind" (text "accepted") end))
            ("smoke-accepted-" ++ run_id)
      is_accepted ← field_is "status" "accepted" accepted
      require is_accepted ("Expected accepted webhook, got " ++ net.repr accepted)
      duplicate ←
          send (demo "demo.accepted" (field "kind" (text "accepted") end))
            ("smoke-accepted-" ++ run_id)
      is_duplicate ← field_is "status" "duplicate" duplicate
      require is_duplicate ("Expected duplicate webhook, got " ++ net.repr duplicate)
      timestamp ← unix_time net
      refused ←
          request_json (base_url ++ "/webhook") "POST"
            (("X-API-KEY", args.api_key)
              ∷ ("X-Webhook-ID", "smoke-invalid-signature")
              ∷ ("X-Webhook-Timestamp", timestamp)
              ∷ ("X-Webhook-Signature", "invalid")
              ∷ [])
            (some (demo "demo.invalid" (field "kind" (text "invalid") end))) 401
      send (demo "demo.retryable" (field "fail_attempts_remaining" (num (pos 3)) end))
          ("smoke-retryable-" ++ run_id)

    unfoldable pub dlq_ready : Client (Option Json)
    unfolding request_json at_least_one
    dlq_ready = do
      stats ← get_json "/queue/stats"
      summary ← get_json "/events/summary"
      depth ← get_item "dead_letter_depth" stats
      dead ← at_least_one (or_zero depth)
      if dead
          then (do
            count ← get_item "failed" summary
            failures ← at_least_one (default_zero count)
            pure (if failures then some stats else none))
          else pure none

    -- One round of the loop of `event_processed` over the items, and what follows it.
    unfoldable pub check_item :
        Json → Json → Client (Option (Unit {0})) → Client (Option (Unit {0}))
    unfolding request_json
    check_item failed event later = do
      id ← item "id" event
      event_id ← item "event_id" failed
      status ←
          (if net.equal id event_id
            then field_is "processing_status" "processed" event
            else pure false)
      if status
          then (do
            stats ← get_json "/queue/stats"
            depth ← get_item "dead_letter_depth" stats
            if net.equal (or_zero depth) (num (pos 0)) then pure (some tt) else later)
          else later

    unfoldable pub find_processed : Json → Items → Client (Option (Unit {0}))
    unfolding check_item
    find_processed failed nil = pure none
    find_processed failed (cons event rest) = check_item failed event (find_processed failed rest)

    -- What `for` goes through: the keys of an object and the letters of a text have no fields.
    abbrev pub items_of : Json → Client Items
    items_of (arr items) = pure items
    items_of (obj end) = pure nil
    items_of (text s) = if str_eq s "" then pure nil else throw type_error
    items_of _ = throw type_error

    unfoldable pub event_processed : Json → Client (Option (Unit {0}))
    unfolding request_json find_processed
    event_processed failed = do
      events ← get_json "/events?limit=20&offset=0&source=smoke"
      items ← item "items" events
      list ← items_of items
      find_processed failed list

    -- The failing event reaches the dead-letter queue, is redriven and is processed.
    unfoldable pub check_redrive : ℕ → Json → Client (Unit {0})
    unfolding request_json wait_for dlq_ready event_processed below_one
    check_redrive rounds failed = do
      stats ← wait_for dlq_ready 90000 2000 "event to reach DLQ" rounds
      redrive ←
          request_json (base_url ++ "/queue/dlq/redrive?limit=10") "POST" auth_headers none 202
      count ← item "redriven_count" redrive
      too_few ← below_one count
      require (not too_few) ("Expected at least one redriven event, got " ++ net.repr redrive)
      wait_for (event_processed failed) 90000 2000 "redriven event to process successfully" rounds

    unfoldable pub check_observability : Client String
    unfolding urlopen request_ok request_json
    check_observability = do
      (status, metrics_text) ←
          urlopen net
            (record { method = "GET"; url = base_url ++ "/metrics"; headers = []; body = none })
      require (contains metrics_text "webhook_intake_total")
          "Prometheus metrics endpoint does not expose webhook_intake_total"
      request_ok (rstrip_slash args.prometheus_url ++ "/-/ready")
      request_ok (rstrip_slash args.alertmanager_url ++ "/-/ready")
      grafana ← request_json (rstrip_slash args.grafana_url ++ "/api/health") "GET" [] none 200
      traces ←
          request_json (rstrip_slash args.tempo_url ++ "/api/search?q={}&limit=5") "GET" [] none 200
      require (truthy traces) "Tempo search did not return any traces"
      pure (
          net.json_dumps (
            obj (
              field "status" (text "ok")
                (field "message" (text "Smoke checks completed successfully") end))))

    -- The line that is printed.
    unfoldable pub main : ℕ → Client String
    unfolding check_intake check_redrive check_observability
    main rounds = do failed ← check_intake; check_redrive rounds failed; check_observability
