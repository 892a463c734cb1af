-- ===== src/Lib.antt =====
-- The webhook ingestion service: an API that takes signed webhook deliveries and stores them as events,
-- a queue (RabbitMQ or Redis) that carries the ids of the events, and a worker that processes them with
-- retries and a dead-letter queue.
--
-- The parts, in the order in which they rest on each other:
-- - Prelude: the shared names, tests, lists and integers. Json: the values in payloads and messages.
-- - Settings: app/config.py. Events: app/models.py. Metrics: app/metrics.py.
-- - Runtime: what all actions compute with. A process has a state (World): the committed rows, the
--   module globals of app/queue.py, the background tasks, the metrics, and the history of its external
--   calls. An action maps a state to a result or an exception and the state after it; what was done
--   before an exception stays done. Runtime.Rules relates the states before and after an action (the
--   rows, or the log of what was published, pushed and acknowledged), Runtime.Calm has the runs in which
--   no external call raises, and Runtime.Raises the exceptions that an action can raise.
-- - Security: app/security.py, `require_api_key` of app/routers/webhooks.py, and `build_signature` of
--   tools/send_signed_webhook.py.
-- - Crud: app/crud.py, on a table that is a list of rows with unique keys.
-- - Queue: app/queue.py. Queue.Payload is the message format, Queue.Topology the connections, the
--   declarations and the publishing, Queue.Consume the enqueueing, dequeueing, rerouting and redriving,
--   Queue.Depth the pings and the depths.
-- - Processor: app/services/processor.py. Worker: app/worker.py.
-- - Routes: app/routers/webhooks.py with the bounds of app/schemas.py. Routes.Accounts follows what a
--   request adds to something that only scheduling adds to; Routes.Publishing takes it for what RabbitMQ
--   is told, and Routes.Inline for the background tasks.
-- - Service: app/main.py (health, the middleware, a round of the poller) and `ping_db` of app/db.py;
--   Service.Lifespan has the start and the end of both processes.
-- - System: the service as a whole. Any number of API and worker processes on one table; a step is one
--   operation of one process (a request, the background tasks of a request, a round of the worker, a
--   health check, a round of the poller, a shutdown) or a switch to another process. System.Changes
--   defines how one commit can change the table, System.Evolves, System.Quiet and System.Actions relate
--   each operation to such commits, System.Keys and System.Soundness are about the keys and the fields
--   of the rows, System.Kept about one row over time, System.Refinement about the view of the table as
--   a map from ids to phases. System.Stored and System.EndToEnd follow a delivery from the API to the
--   worker, System.Background one on the inline backend through its background task, and
--   System.Idempotent one that is sent again at any later time. Processor.Attempts has one attempt with
--   any payload.
-- - Worker.Polls, Worker.Broker, Worker.Polling, Worker.Chain, Worker.Returns, Worker.Turns, Worker.Runs,
--   Worker.Settles, Worker.Jobs, Worker.Drain: runs of the worker over queues whose content is computed
--   from what was published and acknowledged.
-- - Tools: tools/hardening_check.py (Tools.Hardening, with the policy in Tools.Hardening.Policy),
--   tools/smoke_check.py (Tools.Smoke) and `send_webhook` of tools/send_signed_webhook.py
--   (Tools.Client). A tool is a program that asks the network, sleeps and reads the clock.
-- - Sample and Tests: a concrete runtime, and the theorems applied to it.
--
-- Python functions keep their names; a part of a function that has a name of its own here is a helper of
-- the definition with the function's name. The record Runtime holds what is not the repository's code:
-- the broker, the database server, HMAC, UTF-8, JSON, UUIDs, `int`, the clock and ORDER BY. Each external
-- call returns or raises as the runtime decides from the history, so a theorem without a hypothesis on
-- the runtime holds for every failure of the broker and the database. Worker.Broker assumes of RabbitMQ,
-- where the worker holds no message that it has not acknowledged, that a get on the main queue gives a
-- message that was published to it or to the retry queue and was not acknowledged, in any order; and that
-- it gives none only if there is none, or if fewer than `patience` polls in a row were idle. The retry
-- queue holds a message back for its x-message-ttl, and a poll takes time, so some number of idle polls
-- covers the delay; the theorems hold for every such number. No other client takes messages meanwhile.
--
-- Loops: the redrive is recursion on its limit. The worker's endless loop is any number of rounds.
-- `run_worker` is given a number of rounds; `patience + 1` for each attempt that is left are enough, since
-- at most `patience` rounds in a row find the queues' messages held back, and a round that takes one uses
-- an attempt up or ends its event. The waiting loop of the smoke check is given a number of rounds, and
-- more rounds than the timeout has milliseconds are enough, since a round sleeps for at least one.
--
-- Not modelled: log lines, spans and durations, the framework (routing, parsing, response models), the
-- engine and the sessions of app/db.py, app/observability.py and app/logging_config.py, interleavings
-- inside an operation (an operation runs to its end before another process goes on; a unique key is
-- checked where the row is inserted), the command lines of the tools and the three scripts that copy a
-- file, run docker compose or send one request, and the deployment files.
pub mod Prelude
pub mod Json
pub mod Settings
pub mod Events
pub mod Metrics
pub mod Runtime
pub mod Security
pub mod Crud
pub mod Queue
pub mod Processor
pub mod Worker
pub mod Routes
pub mod Service
pub mod System
pub mod Tools
pub mod Sample
pub mod Tests
