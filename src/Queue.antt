-- ===== src/Queue.antt =====
-- app/queue.py: connections and topology, payloads, publishing, consuming, retries, the dead-letter
-- queue and its redrive, and the queue depths. Timeouts and log lines are not modelled.
pub mod Payload
pub mod Topology
pub mod Consume
pub mod Depth
