-- ===== src/Constants.antt =====
-- src/shared/constants/index.ts: the limits and intervals, in milliseconds where a time is meant.
use hyperscale_job_scheduler.Base.{ℕ, ◌*◌}

abbrev pub poll_interval_ms : ℕ
poll_interval_ms = 1000

abbrev pub poll_batch_size : ℕ
poll_batch_size = 100

abbrev pub min_free_slots : ℕ
min_free_slots = 10

abbrev pub leader_lock_ttl_ms : ℕ
leader_lock_ttl_ms = 30000

abbrev pub heartbeat_interval_ms : ℕ
heartbeat_interval_ms = 15000

abbrev pub heartbeat_ttl_ms : ℕ
heartbeat_ttl_ms = heartbeat_interval_ms * 3

abbrev pub heartbeat_stale_threshold_ms : ℕ
heartbeat_stale_threshold_ms = heartbeat_interval_ms * 2

abbrev pub job_lock_ttl_ms : ℕ
job_lock_ttl_ms = 300000

abbrev pub stale_running_job_age_ms : ℕ
stale_running_job_age_ms = job_lock_ttl_ms

abbrev pub max_retries : ℕ
max_retries = 5

abbrev pub base_delay_ms : ℕ
base_delay_ms = 1000

abbrev pub max_delay_ms : ℕ
max_delay_ms = 60000

abbrev pub retry_multiplier : ℕ
retry_multiplier = 2

abbrev pub max_concurrent_jobs : ℕ
max_concurrent_jobs = 100

abbrev pub completed_job_ttl_seconds : ℕ
completed_job_ttl_seconds = 60 * 60 * 24 * 7

abbrev pub dead_letter_ttl_seconds : ℕ
dead_letter_ttl_seconds = 60 * 60 * 24 * 30

abbrev pub clock_skew_warn_threshold_ms : ℕ
clock_skew_warn_threshold_ms = 1000

abbrev pub clock_skew_alert_threshold_ms : ℕ
clock_skew_alert_threshold_ms = 5000
