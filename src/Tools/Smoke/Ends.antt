-- ===== src/Tools/Smoke/Ends.antt =====
-- The parts of tools/smoke_check.py, by how they end.
use webhook_ingestion_servic.Prelude.{
  ℕ, ◌<◌, String, Bool, true, false, Option, List, arith, pos, negsuc,
}
use webhook_ingestion_servic.Json.{
  Json, null, bool, num, float, text, arr, obj, Items, nil, cons, end, field,
}
use webhook_ingestion_servic.Tools.Client.{Net, Reply, response, http_status, unreachable, Client}
use webhook_ingestion_servic.Tools.Client.Runs.{IsClock, Runs, runs_rules}
use webhook_ingestion_servic.Tools.Smoke.{
  Args, item, get_item, require, below_one, at_least_one, status_of, check_status, request_json,
  request_ok, wait_for, check_intake, check_item, dlq_ready, find_processed, event_processed,
  items_of, check_redrive, check_observability, main,
}
use webhook_ingestion_servic.Tools.Smoke.Waiting.{wait_for-Runs}

module _ (net : Net) where
  item-Runs : (key : String) (j : Json) → Runs net (item key j)
  item-Runs key (obj fields) = search runs_rules
  item-Runs key null = search runs_rules
  item-Runs key (bool b) = search runs_rules
  item-Runs key (num n) = search runs_rules
  item-Runs key (float x) = search runs_rules
  item-Runs key (text s) = search runs_rules
  item-Runs key (arr xs) = search runs_rules

  get_item-Runs : (key : String) (j : Json) → Runs net (get_item key j)
  get_item-Runs key (obj fields) = search runs_rules
  get_item-Runs key null = search runs_rules
  get_item-Runs key (bool b) = search runs_rules
  get_item-Runs key (num n) = search runs_rules
  get_item-Runs key (float x) = search runs_rules
  get_item-Runs key (text s) = search runs_rules
  get_item-Runs key (arr xs) = search runs_rules

  require-Runs : (b : Bool) (message : String) → Runs net (require net b message)
  require-Runs true message = search runs_rules
  require-Runs false message = search runs_rules

  below_one-Runs : (j : Json) → Runs net (below_one net j)
  unfolding below_one
  below_one-Runs (num (pos n)) = search runs_rules
  below_one-Runs (num (negsuc n)) = search runs_rules
  below_one-Runs null = search runs_rules
  below_one-Runs (bool b) = search runs_rules
  below_one-Runs (float x) = search runs_rules
  below_one-Runs (text s) = search runs_rules
  below_one-Runs (arr xs) = search runs_rules
  below_one-Runs (obj xs) = search runs_rules

  at_least_one-Runs : (j : Json) → Runs net (at_least_one net j)
  unfolding at_least_one
  at_least_one-Runs (num (pos n)) = search runs_rules
  at_least_one-Runs (num (negsuc n)) = search runs_rules
  at_least_one-Runs null = search runs_rules
  at_least_one-Runs (bool b) = search runs_rules
  at_least_one-Runs (float x) = search runs_rules
  at_least_one-Runs (text s) = search runs_rules
  at_least_one-Runs (arr xs) = search runs_rules
  at_least_one-Runs (obj xs) = search runs_rules

  status_of-Runs : (reply : Reply) → Runs net (status_of net reply)
  unfolding status_of
  status_of-Runs (response status content) = search runs_rules
  status_of-Runs (http_status status content) = search runs_rules
  status_of-Runs unreachable = search runs_rules

  check_status-Runs :
      (url : String) (expected_status : ℕ) (answer : ℕ × String)
      → Runs net (check_status net url expected_status answer)
  unfolding check_status
  check_status-Runs url expected_status (status, content) = search runs_rules

  module _ (clock : IsClock net) where
    request_json-Runs :
        (url method : String) (headers : List (String × String)) (payload : Option Json)
        (expected_status : ℕ)
        → Runs net (request_json net url method headers payload expected_status)
    unfolding request_json
    request_json-Runs url method headers payload expected_status =
        search (runs_rules, status_of-Runs, check_status-Runs)

    request_ok-Runs : (url : String) → Runs net (request_ok net url)
    unfolding request_ok
    request_ok-Runs url = search runs_rules

    module _ (args : Args) where
      check_intake-Runs : Runs net (check_intake net args)
      unfolding check_intake
      check_intake-Runs = search (runs_rules, item-Runs, require-Runs, request_json-Runs) depth 30

      dlq_ready-Runs : Runs net (dlq_ready net args)
      unfolding dlq_ready
      dlq_ready-Runs =
          search (runs_rules, get_item-Runs, at_least_one-Runs, request_json-Runs) depth 14

      check_item-Runs :
          (failed event : Json) (later : Client (Option (Unit {0})))
          → Runs net later
          → Runs net (check_item net args failed event later)
      unfolding check_item
      check_item-Runs failed event later h =
          search (runs_rules, item-Runs, get_item-Runs, request_json-Runs) depth 14

      find_processed-Runs :
          (failed : Json) (items : Items) → Runs net (find_processed net args failed items)
      unfolding find_processed
      find_processed-Runs failed nil = search runs_rules
      find_processed-Runs failed (cons event rest) =
          check_item-Runs failed event _ (find_processed-Runs failed rest)

      items_of-Runs : (j : Json) → Runs net (items_of net args j)
      items_of-Runs (arr items) = search runs_rules
      items_of-Runs (obj end) = search runs_rules
      items_of-Runs (obj (field k v rest)) = search runs_rules
      items_of-Runs null = search runs_rules
      items_of-Runs (bool b) = search runs_rules
      items_of-Runs (float x) = search runs_rules
      items_of-Runs (text s) = search runs_rules
      items_of-Runs (num n) = search runs_rules

      event_processed-Runs : (failed : Json) → Runs net (event_processed net args failed)
      unfolding event_processed
      event_processed-Runs failed =
          search (runs_rules, item-Runs, items_of-Runs, request_json-Runs, find_processed-Runs)
            depth 14

      check_observability-Runs : Runs net (check_observability net args)
      unfolding check_observability
      check_observability-Runs =
          search (runs_rules, require-Runs, request_json-Runs, request_ok-Runs) depth 20

      module _ (rounds : ℕ) (enough : 90000 < rounds) where
        dlq-Runs :
            Runs net (wait_for net (dlq_ready net args) 90000 2000 "event to reach DLQ" rounds)
        dlq-Runs =
            wait_for-Runs net (dlq_ready net args) 90000 2000 "event to reach DLQ" rounds clock
              dlq_ready-Runs (omega arith) enough

        processed-Runs :
            (failed : Json)
            → Runs net (
                wait_for net
                  (event_processed net args failed)
                  90000
                  2000
                  "redriven event to process successfully"
                  rounds)
        processed-Runs failed =
            wait_for-Runs net (event_processed net args failed) 90000 2000
              "redriven event to process successfully" rounds clock (event_processed-Runs failed)
              (omega arith) enough

        check_redrive-Runs : (failed : Json) → Runs net (check_redrive net args rounds failed)
        unfolding check_redrive
        check_redrive-Runs failed =
            search
              (
                runs_rules, dlq-Runs, processed-Runs, request_json-Runs, item-Runs, below_one-Runs,
                require-Runs,
              )
              depth 20

        -- The smoke check comes to an end, whatever the service answers, on a clock that does not go
        -- back: more than 90000 rounds of each of its two loops are enough.
        pub main-Runs : Runs net (main net args rounds)
        unfolding main
        main-Runs =
            search (runs_rules, check_intake-Runs, check_redrive-Runs, check_observability-Runs)
