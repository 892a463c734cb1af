-- ===== src/Tests/System.antt =====
-- The theorems on the whole service (app/main.py, app/worker.py), each applied to the sample's row and
-- to operations of two processes.
use webhook_ingestion_servic.Prelude.{◌≡◌, refl, some, [], ◌∷◌, pos, arith, All, inl, List}
use webhook_ingestion_servic.Runtime.{World, did, publish}
use webhook_ingestion_servic.Runtime.Rules.{log}
use webhook_ingestion_servic.Processor.{find_event, failures_json, force_failure}
use webhook_ingestion_servic.Processor.Transient.{HasFailures}
use webhook_ingestion_servic.Queue.Payload.{int_of_json, queue_payload}
use webhook_ingestion_servic.Worker.{run_worker}
use webhook_ingestion_servic.Worker.Polls.{IsSettled, polls}
use webhook_ingestion_servic.Worker.Broker.{waiting, dead_letters}
use webhook_ingestion_servic.Worker.Jobs.{Job, IsDue, messages}
use webhook_ingestion_servic.Worker.Drain.{Drains, run_worker-Drains}
use webhook_ingestion_servic.Worker.Settles.{Settles, run_worker-Settles}
use webhook_ingestion_servic.Json.{get}
use webhook_ingestion_servic.Sample.{
  sample_event, sample_runtime, sample_settings, sample_request, sample_webhook, broken_runtime,
  stocked,
}
use webhook_ingestion_servic.Sample.Broker.{
  broker_runtime, broker_runtime-IsBroker, sample_queues, sample_codecs, queued, queued-IsSettled,
}
use webhook_ingestion_servic.Crud.{violates}
use webhook_ingestion_servic.Crud.Unique.{IsUnique}
use webhook_ingestion_servic.System.Soundness.{IsSound, Reaches-IsValid}
use webhook_ingestion_servic.System.Kept.{Survives, Reaches-kept}
use webhook_ingestion_servic.System.Refinement.{Moves, view, Step-Moves}
use webhook_ingestion_servic.System.{
  post_webhook, worker_round, operate, Step, acts, switches, Reaches, here, next,
}

queued_failures : HasFailures broker_runtime sample_event.payload 1
unfolding failures_json force_failure int_of_json get
queued_failures = record { count = refl; unforced = refl }

queued_found : find_event 1 queued.events ≡ some sample_event
unfolding find_event
queued_found = refl

queued_waiting :
    waiting sample_settings (log queued.history) ≡ queue_payload broker_runtime 1 (pos 1) ∷ []
unfolding waiting
queued_waiting = refl

queued_dead : dead_letters sample_settings (log queued.history) ≡ []
unfolding dead_letters
queued_dead = refl

-- The first attempt fails and the second works; each message is held back for two polls.
run_worker-Settles_example :
    Settles broker_runtime 1 3 1 1 0 [] (run_worker broker_runtime 9 queued)
run_worker-Settles_example =
    run_worker-Settles broker_runtime (record { works = λ h c. refl }) refl 2
      broker_runtime-IsBroker sample_queues 1 sample_codecs 3 refl 9 1 1 queued sample_event []
      queued-IsSettled (omega arith) (omega arith) queued_found queued_failures queued_waiting
      queued_dead

-- Two attempts of the event wait.
abbrev crowded : World
crowded = record stocked {
  history =
      did (publish "webhook-events" (queue_payload broker_runtime 1 (pos 2)))
      ∷ did (publish "webhook-events" (queue_payload broker_runtime 1 (pos 1)))
      ∷ [];
}

abbrev crowd : List Job
crowd = (1, 1) ∷ (1, 2) ∷ []

crowded_waiting : waiting sample_settings (log crowded.history) ≡ messages broker_runtime crowd
unfolding waiting
crowded_waiting = refl

crowded-IsSettled : IsSettled broker_runtime crowded.history
unfolding polls
crowded-IsSettled = record { returned = refl; own = refl }

crowd-IsDue : All (IsDue broker_runtime 3) crowd
crowd-IsDue = ((omega arith, sample_codecs), ((omega arith, sample_codecs), tt))

run_worker-Drains_example : Drains broker_runtime (run_worker broker_runtime 15 crowded)
run_worker-Drains_example =
    run_worker-Drains broker_runtime (record { works = λ h c. refl }) refl 2 broker_runtime-IsBroker
      sample_queues 3 refl 15 crowd crowded crowded-IsSettled crowd-IsDue (omega arith)
      crowded_waiting

-- A request of one process, a switch to another, and a round of its worker, whose broker refuses all
-- messages.
abbrev posted : World
posted = (operate sample_runtime (post_webhook sample_webhook sample_request) stocked).1

abbrev switched : World
switched = record stocked { events = posted.events }

abbrev worked : World
worked = (operate broken_runtime worker_round switched).1

sample_step : Step stocked posted
sample_step = acts sample_runtime (post_webhook sample_webhook sample_request) refl

sample-Reaches : Reaches stocked worked
sample-Reaches =
    next (next (next here sample_step) (switches refl)) (acts broken_runtime worker_round refl)

stocked-IsUnique : IsUnique stocked.events
unfolding violates
stocked-IsUnique = (refl, tt)

stocked-IsSound : All IsSound stocked.events
stocked-IsSound = ((refl, inl refl), tt)

Reaches-IsValid_example : IsUnique worked.events × All IsSound worked.events
Reaches-IsValid_example =
    Reaches-IsValid stocked worked stocked-IsUnique stocked-IsSound sample-Reaches

Reaches-kept_example : Survives sample_event worked.events
Reaches-kept_example = Reaches-kept stocked worked sample_event queued_found sample-Reaches

Step-Moves_example : Moves (view stocked.events) (view posted.events)
Step-Moves_example = Step-Moves stocked posted sample_step
