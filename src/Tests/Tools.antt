-- ===== src/Tests/Tools.antt =====
-- The theorems on tools/hardening_check.py and tools/smoke_check.py, each applied to a sample
-- repository or a sample network.
use webhook_ingestion_servic.Prelude.{
  ℕ, ◌+◌, ◌≤◌, true, false, Option, none, some, [], ◌∷◌, leb, length, arith, if◌then◌else◌,
}
use webhook_ingestion_servic.Tools.Hardening.{Files, main}
use webhook_ingestion_servic.Tools.Hardening.Policy.{Judges, main-Judges}
use webhook_ingestion_servic.Tools.Client.{Net, Client, Trace, Deed, asked, slept, ok, http_status}
use webhook_ingestion_servic.Tools.Client.Runs.{IsClock, Runs}
use webhook_ingestion_servic.Tools.Smoke.{Args, wait_for}
use webhook_ingestion_servic.Tools.Smoke
use webhook_ingestion_servic.Tools.Smoke.Waiting.{Waits, wait_for-Waits}
use webhook_ingestion_servic.Tools.Smoke.Ends.{main-Runs}

-- A repository in which every file is there and says little.
abbrev sample_files : Files
sample_files = record { exists = λ path. true; text = λ path. some "HEALTHCHECK"; writable = true }

main-Judges_example : Judges sample_files (main sample_files)
main-Judges_example = main-Judges sample_files

-- A request takes one millisecond.
abbrev sample_time : Trace → ℕ
sample_time [] = 0
sample_time (asked call ∷ t) = sample_time t + 1
sample_time (slept n ∷ t) = sample_time t + n

abbrev sample_net : Net
sample_net = record {
  answer = λ t call. http_status 503 "";
  time = sample_time;
  str_of_int = λ n. "1";
  hmac_sha256_hex = λ key message. "5f";
  json_dumps = λ j. "{}";
  repr = λ j. "{}";
  json_compact = λ j. "{}";
  json_loads = λ s. none;
  equal = λ a b. false;
  float_is_less = λ x n. false;
  float_is_more = λ x n. false;
}

sample_forward : (d : Deed) (t : Trace) → sample_time t ≤ sample_time (d ∷ t)
sample_forward (asked call) t = omega arith
sample_forward (slept n) t = omega arith

sample-IsClock : IsClock sample_net
sample-IsClock = record { forward = sample_forward; sleeps = λ n t. omega arith }

-- The predicate has a value from the third deed on.
abbrev third_deed : Client (Option ℕ)
third_deed t = (ok (if leb 3 (length t) then some 7 else none), t)

third_deed-Runs : Runs sample_net third_deed
third_deed-Runs = record { ends = λ t. tt; later = λ t. omega arith }

wait_for-Waits_example :
    Waits sample_net third_deed 100 20 "the third deed"
      (sample_time [] + 100)
      (wait_for sample_net third_deed 100 20 "the third deed" 101 [])
wait_for-Waits_example =
    wait_for-Waits sample_net third_deed 100 20 "the third deed" 101 [] sample-IsClock
      third_deed-Runs (omega arith) (omega arith)

abbrev sample_args : Args
sample_args = record {
  base_url = "http://127.0.0.1:18180/";
  prometheus_url = "http://127.0.0.1:19190";
  alertmanager_url = "http://127.0.0.1:19193";
  grafana_url = "http://127.0.0.1:13150";
  tempo_url = "http://127.0.0.1:13221";
  api_key = "supersecret";
  secret = "topsecret";
}

main-Runs_example : Runs sample_net (Smoke.main sample_net sample_args 90001)
main-Runs_example = main-Runs sample_net sample-IsClock sample_args 90001 (omega arith)
