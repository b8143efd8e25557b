-- ===== src/JobService.antt =====
-- JobService of src/domains/job/job.service.ts: enqueue and cancel over the repository, the queue and
-- the publisher. Log lines and the request id are left out.
pub mod Definitions
pub mod Enqueue
pub mod Orders
pub mod Cancel
use hyperscale_job_scheduler.Base.{ℕ, String, Option, none, some}
use hyperscale_job_scheduler.Exec.{Exec, Message, pure, throw, ◌>>=◌, ◌>>◌}
use hyperscale_job_scheduler.Types.{Job, JobType, JobPayload, EnqueueJobInput}
use hyperscale_job_scheduler.Jobs.Repository.{create_job, cancel_job}
use hyperscale_job_scheduler.Queue.RedisJobQueue
use hyperscale_job_scheduler.Services.{Services, World, on_jobs, on_sets, on_clock}
use hyperscale_job_scheduler.Execution.Publisher.{publish_job_scheduled, publish_job_cancelled}
use Definitions.{JobDefinition, job_definitions, idempotency_key, typed}

-- `scheduledAt` is the time that `new Date(request.scheduledAt)` gives.
pub record CreateJobRequest : Type 0 where
  pub job_type : JobType
  pub tenant_id : String
  pub scheduled_at : ℕ
  pub payload : JobPayload
  pub cron_expression : Option String

-- `uuid` is what `uuidv4()` gives in this call.
unfoldable pub job_id_of : CreateJobRequest → String → String
job_id_of request uuid =
    idempotency_key request.job_type uuid (typed request.job_type request.payload)

unfoldable pub input_of : CreateJobRequest → String → JobDefinition → EnqueueJobInput
unfolding job_id_of
input_of request uuid definition = record {
  job_id = job_id_of request uuid;
  job_type = request.job_type;
  tenant_id = request.tenant_id;
  scheduled_at = request.scheduled_at;
  next_run_at = request.scheduled_at;
  priority = definition.priority;
  max_attempts = definition.max_attempts;
  cron_expression = request.cron_expression;
  payload = typed request.job_type request.payload;
}

module _ (s : Services) where
  unfoldable pub publish_enqueued : Job → Exec (World s) (Unit {0})
  publish_enqueued job = publish_job_scheduled s (record {
    job_id = job.job_id;
    job_type = job.job_type;
    tenant_id = job.tenant_id;
    scheduled_at = job.scheduled_at;
    next_run_at = job.next_run_at;
    priority = job.priority;
  })

  -- What `enqueue` does with the job that the repository gave it.
  unfoldable pub queue_job : CreateJobRequest → String → Job → Exec (World s) Job
  unfolding ◌>>=◌ publish_enqueued
  queue_job request uuid job = do
    on_sets s (
        RedisJobQueue.enqueue s.sets request.job_type (job_id_of request uuid) request.scheduled_at)
    publish_enqueued job
    pure job

  unfoldable pub enqueue_defined :
      CreateJobRequest → String → Message → Option JobDefinition → Exec (World s) Job
  unfolding input_of queue_job ◌>>=◌
  enqueue_defined request uuid unknown none = throw unknown
  enqueue_defined request uuid unknown (some definition) = do
    job ← on_jobs s (create_job s.jobs (input_of request uuid definition))
    queue_job request uuid job

  -- `unknown` is the text of the error for a type without a definition.
  unfoldable pub enqueue : CreateJobRequest → String → Message → Exec (World s) Job
  unfolding enqueue_defined
  enqueue request uuid unknown =
      enqueue_defined request uuid unknown (job_definitions request.job_type)

  unfoldable pub publish_removed : Job → String → ℕ → Exec (World s) (Unit {0})
  publish_removed job cancelled_by cancelled_at = publish_job_cancelled s (record {
    job_id = job.job_id;
    job_type = job.job_type;
    tenant_id = job.tenant_id;
    cancelled_at = cancelled_at;
    cancelled_by = cancelled_by;
  })

  unfoldable pub cancel_found : String → String → Option Job → Exec (World s) (Option Job)
  unfolding ◌>>=◌ publish_removed
  cancel_found job_id cancelled_by none = pure none
  cancel_found job_id cancelled_by (some job) = do
    on_sets s (RedisJobQueue.remove s.sets job.job_type job_id)
    cancelled_at ← on_clock s s.clock.date_now
    publish_removed job cancelled_by cancelled_at
    pure (some job)

  -- `now` is the time at which the update is sent.
  unfoldable pub cancel : String → String → ℕ → Exec (World s) (Option Job)
  unfolding cancel_found
  cancel job_id cancelled_by now = do
    job ← on_jobs s (cancel_job s.jobs job_id now)
    cancel_found job_id cancelled_by job
