-- ===== src/Services/Events.antt =====
-- The event payloads of src/infra/messaging/rabbitmq-publisher.ts and src/shared/types/index.ts, and
-- ROUTING_KEYS of src/infra/config/rabbitmq.consumer.ts. Times stay in milliseconds.
use hyperscale_job_scheduler.Base.{ℕ, String}
use hyperscale_job_scheduler.Exec.{Message}
use hyperscale_job_scheduler.Types.{JobType}

pub record JobScheduledEvent : Type 0 where
  pub job_id : String
  pub job_type : JobType
  pub tenant_id : String
  pub scheduled_at : ℕ
  pub next_run_at : ℕ
  pub priority : ℕ

pub record JobClaimedEvent : Type 0 where
  pub job_id : String
  pub job_type : JobType
  pub tenant_id : String
  pub attempt : ℕ
  pub claimed_at : ℕ
  pub instance_id : String

pub record JobCompletedEvent : Type 0 where
  pub job_id : String
  pub job_type : JobType
  pub tenant_id : String
  pub scheduled_at : ℕ
  pub executed_at : ℕ
  pub duration_ms : ℕ
  pub attempt : ℕ

pub record JobFailedEvent : Type 0 where
  pub job_id : String
  pub job_type : JobType
  pub tenant_id : String
  pub attempt : ℕ
  pub max_attempts : ℕ
  pub error : Message

pub record JobRetryingEvent : Type 0 where
  pub job_id : String
  pub job_type : JobType
  pub tenant_id : String
  pub attempt : ℕ
  pub max_attempts : ℕ
  pub next_retry_at : ℕ
  pub error : Message

pub record JobCancelledEvent : Type 0 where
  pub job_id : String
  pub job_type : JobType
  pub tenant_id : String
  pub cancelled_at : ℕ
  pub cancelled_by : String

pub record JobDeadEvent : Type 0 where
  pub job_id : String
  pub job_type : JobType
  pub tenant_id : String
  pub total_attempts : ℕ
  pub last_error : Message
  pub dead_at : ℕ

pub record JobHeartbeatEvent : Type 0 where
  pub job_id : String
  pub job_type : JobType
  pub tenant_id : String
  pub instance_id : String
  pub heartbeat_at : ℕ

pub data Event : Type 0 where
  scheduled : JobScheduledEvent → Event
  claimed : JobClaimedEvent → Event
  completed : JobCompletedEvent → Event
  failed : JobFailedEvent → Event
  retrying : JobRetryingEvent → Event
  cancelled : JobCancelledEvent → Event
  dead : JobDeadEvent → Event
  heartbeat : JobHeartbeatEvent → Event

pub data RoutingKey : Type 0 where
  job_completed job_failed job_dead job_scheduled job_claimed job_retrying job_cancelled :
      RoutingKey
  job_heartbeat : RoutingKey

unfoldable pub routing_key : RoutingKey → String
routing_key RoutingKey.job_completed = "job.completed.topic"
routing_key RoutingKey.job_failed = "job.failed.topic"
routing_key RoutingKey.job_dead = "job.dead.topic"
routing_key RoutingKey.job_scheduled = "job.scheduled.topic"
routing_key RoutingKey.job_claimed = "job.claimed.topic"
routing_key RoutingKey.job_retrying = "job.retrying.topic"
routing_key RoutingKey.job_cancelled = "job.cancelled.topic"
routing_key RoutingKey.job_heartbeat = "job.heartbeat.topic"
