-- ===== src/Tests/Storage.antt =====
-- The theorems on the rows, the messages and the settings (app/crud.py, app/services/processor.py,
-- app/queue.py, app/config.py), each applied to the sample rows.
use webhook_ingestion_servic.Prelude.{◌≢◌, arith, ◌≡◌, refl, none, some, false, pos}
use webhook_ingestion_servic.Events.{Uuid}
use webhook_ingestion_servic.Processor.{find_event, process_event_by_id}
use webhook_ingestion_servic.Processor.Others.{process_event_by_id_others}
use webhook_ingestion_servic.Settings.Checks.{IsAccepted, validate_settings-IsAccepted}
use webhook_ingestion_servic.Runtime.{ok}
use webhook_ingestion_servic.Crud.{
  violates, create_event, get_event_by_delivery_id, get_events_summary,
}
use webhook_ingestion_servic.Crud.Unique.{IsUnique}
use webhook_ingestion_servic.Crud.Insert.{Creates, create_event-Creates}
use webhook_ingestion_servic.Crud.Reads.{Finds, get_event_by_delivery_id-Finds}
use webhook_ingestion_servic.Crud.Summary.{Summarizes, get_events_summary-Summarizes}
use webhook_ingestion_servic.Queue.Payload.{
  HasCodecs, decode_payload, queue_payload, envelope_fields, decode_payload-queue_payload,
}
use webhook_ingestion_servic.Processor.Rows.{Processes, process_event_by_id-Processes}
use webhook_ingestion_servic.Sample.{sample_settings, sample_payload, sample_runtime, stocked}
use webhook_ingestion_servic.Settings.{validate_settings}

stocked-IsUnique : IsUnique stocked.events
unfolding violates
stocked-IsUnique = (refl, tt)

process_event_by_id-Processes_example :
    Processes sample_runtime 1 false stocked (process_event_by_id sample_runtime 1 false stocked)
process_event_by_id-Processes_example = process_event_by_id-Processes sample_runtime 1 false stocked

create_event-Creates_example :
    Creates sample_runtime
      (some "d-2")
      none
      "github"
      "push"
      sample_payload
      stocked
      (create_event sample_runtime (some "d-2") none "github" "push" sample_payload stocked)
create_event-Creates_example =
    create_event-Creates sample_runtime (some "d-2") none "github" "push" sample_payload stocked

get_event_by_delivery_id-Finds_example :
    Finds "d-1" stocked (get_event_by_delivery_id sample_runtime "d-1" stocked)
get_event_by_delivery_id-Finds_example =
    get_event_by_delivery_id-Finds sample_runtime "d-1" stocked stocked-IsUnique

get_events_summary-Summarizes_example :
    Summarizes stocked (get_events_summary sample_runtime stocked)
get_events_summary-Summarizes_example = get_events_summary-Summarizes sample_runtime stocked

sample_codecs : HasCodecs sample_runtime 1 (pos 1)
unfolding envelope_fields
sample_codecs = record { utf8 = refl; json = refl; uuid = refl }

decode_payload-queue_payload_example :
    decode_payload sample_runtime (queue_payload sample_runtime 1 (pos 1)) ≡ ok (1, pos 1)
decode_payload-queue_payload_example =
    decode_payload-queue_payload sample_runtime 1 (pos 1) sample_codecs

sample_validated : validate_settings (λ s. s) sample_settings ≡ some sample_settings
unfolding validate_settings
sample_validated = refl

validate_settings-IsAccepted_example : IsAccepted sample_settings
validate_settings-IsAccepted_example =
    validate_settings-IsAccepted (λ s. s) sample_settings sample_settings sample_validated

one_ne_two : ◌≢◌ {A = Uuid} 1 2
one_ne_two e = omega arith

process_event_by_id_others_example :
    find_event 2 (process_event_by_id sample_runtime 1 false stocked).1.events
    ≡ find_event 2 stocked.events
process_event_by_id_others_example =
    process_event_by_id_others sample_runtime 1 2 false stocked one_ne_two
