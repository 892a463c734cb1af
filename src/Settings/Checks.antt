-- ===== src/Settings/Checks.antt =====
-- What accepted settings (app/config.py) guarantee to the queue and the worker.
use webhook_ingestion_servic.Prelude.{String, ◌≡◌, ◌⊎◌, some, pos, ◌≤ℤ◌, eq_iff, arith}
use webhook_ingestion_servic.Settings.{Settings, validate_settings}

-- The backend is one of the three names, and the three numbers are positive.
pub record IsAccepted (s : Settings) : Type 0 where
  pub backend :
      (s.task_queue_backend ≡ "inline")
      ⊎ ((s.task_queue_backend ≡ "redis") ⊎ (s.task_queue_backend ≡ "rabbitmq"))
  pub poll : pos 1 ≤ℤ s.worker_poll_timeout_seconds
  pub delay : pos 1 ≤ℤ s.rabbitmq_retry_delay_ms
  pub most : pos 1 ≤ℤ s.rabbitmq_max_delivery_attempts

-- Settings that validation returns, from any raw settings, have a known backend, and a poll
-- timeout, a retry delay and a number of delivery attempts of at least 1.
pub validate_settings-IsAccepted :
    (lower : String → String) (raw s : Settings)
    → validate_settings lower raw ≡ some s
    → IsAccepted s
unfolding validate_settings
validate_settings-IsAccepted lower raw s h = record {
  backend = ground (
    arith,
    eq_iff (lower raw.task_queue_backend) "inline",
    eq_iff (lower raw.task_queue_backend) "redis",
    eq_iff (lower raw.task_queue_backend) "rabbitmq",
  );
  poll = ground arith;
  delay = ground arith;
  most = ground arith;
}
