-- ===== src/Execution/Retry.antt =====
-- RetryService.handleFailure of src/domains/execution/retry.service.ts. Log lines are left out.
use hyperscale_job_scheduler.Base.{ℕ, leb, if◌then◌else◌}
use hyperscale_job_scheduler.Exec.{Exec, Message, ◌>>=◌, ◌>>◌}
use hyperscale_job_scheduler.Types.{Job}
use hyperscale_job_scheduler.Jobs.Repository.{mark_dead, mark_failed}
use hyperscale_job_scheduler.Queue.RedisJobQueue.{reschedule}
use hyperscale_job_scheduler.DeadLetters
use hyperscale_job_scheduler.Services.{Services, World, on_jobs, on_sets, on_letters, on_clock}
use hyperscale_job_scheduler.Execution.Backoff.{compute_next_run_at}
use hyperscale_job_scheduler.Execution.Publisher.{publish_job_failed, publish_job_retrying}

module _ (s : Services) where
  unfoldable pub exhausted : Job → Message → ℕ → Exec (World s) (Unit {0})
  exhausted job error new_version = do
    now ← on_clock s s.clock.date_now
    on_jobs s (mark_dead s.jobs job.job_id new_version now)
    dead_at ← on_clock s s.clock.date_now
    on_letters s (DeadLetters.create s.letters job error dead_at)

  unfoldable pub retried : Job → Message → ℕ → Exec (World s) (Unit {0})
  retried job error new_version = do
    jitter ← on_clock s s.clock.jitter
    now ← on_clock s s.clock.date_now
    at ← on_clock s s.clock.date_now
    on_jobs s (
        mark_failed s.jobs job.job_id new_version error
          (compute_next_run_at job.attempts now jitter) at)
    on_sets s
        (reschedule s.sets job.job_type job.job_id (compute_next_run_at job.attempts now jitter))
    publish_job_retrying s (record {
      job_id = job.job_id;
      job_type = job.job_type;
      tenant_id = job.tenant_id;
      attempt = job.attempts;
      max_attempts = job.max_attempts;
      next_retry_at = compute_next_run_at job.attempts now jitter;
      error = error;
    })

  unfoldable pub handle_failure : Job → Message → ℕ → Exec (World s) (Unit {0})
  handle_failure job error new_version = do
    publish_job_failed s (record {
      job_id = job.job_id;
      job_type = job.job_type;
      tenant_id = job.tenant_id;
      attempt = job.attempts;
      max_attempts = job.max_attempts;
      error = error;
    })
    if leb job.max_attempts job.attempts
        then exhausted job error new_version
        else retried job error new_version
