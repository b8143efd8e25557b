-- ===== src/Execution/Publisher.antt =====
-- src/infra/messaging/rabbitmq-publisher.ts: one function for each event, all through
-- publishToExchange of src/infra/config/rabbitmq.consumer.ts.
use hyperscale_job_scheduler.Exec.{Exec}
use hyperscale_job_scheduler.Services.{Services, World, on_bus}
use hyperscale_job_scheduler.Services.Broker.{publish_to_exchange}
use hyperscale_job_scheduler.Services.Events.{
  JobScheduledEvent, JobClaimedEvent, JobCompletedEvent, JobFailedEvent, JobRetryingEvent,
  JobCancelledEvent, JobDeadEvent, JobHeartbeatEvent, scheduled, claimed, completed, failed,
  retrying, cancelled, dead, heartbeat, RoutingKey,
}

module _ (s : Services) where
  unfoldable pub publish_job_completed : JobCompletedEvent → Exec (World s) (Unit {0})
  publish_job_completed payload =
      on_bus s (publish_to_exchange s.broker RoutingKey.job_completed (completed payload))

  unfoldable pub publish_job_failed : JobFailedEvent → Exec (World s) (Unit {0})
  publish_job_failed payload =
      on_bus s (publish_to_exchange s.broker RoutingKey.job_failed (failed payload))

  unfoldable pub publish_job_scheduled : JobScheduledEvent → Exec (World s) (Unit {0})
  publish_job_scheduled payload =
      on_bus s (publish_to_exchange s.broker RoutingKey.job_scheduled (scheduled payload))

  unfoldable pub publish_job_claimed : JobClaimedEvent → Exec (World s) (Unit {0})
  publish_job_claimed payload =
      on_bus s (publish_to_exchange s.broker RoutingKey.job_claimed (claimed payload))

  unfoldable pub publish_job_retrying : JobRetryingEvent → Exec (World s) (Unit {0})
  publish_job_retrying payload =
      on_bus s (publish_to_exchange s.broker RoutingKey.job_retrying (retrying payload))

  unfoldable pub publish_job_cancelled : JobCancelledEvent → Exec (World s) (Unit {0})
  publish_job_cancelled payload =
      on_bus s (publish_to_exchange s.broker RoutingKey.job_cancelled (cancelled payload))

  unfoldable pub publish_job_dead : JobDeadEvent → Exec (World s) (Unit {0})
  publish_job_dead payload =
      on_bus s (publish_to_exchange s.broker RoutingKey.job_dead (dead payload))

  unfoldable pub publish_job_heartbeat : JobHeartbeatEvent → Exec (World s) (Unit {0})
  publish_job_heartbeat payload =
      on_bus s (publish_to_exchange s.broker RoutingKey.job_heartbeat (heartbeat payload))
