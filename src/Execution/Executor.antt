-- ===== src/Execution/Executor.antt =====
-- JobExecutor of src/domains/execution/job-executor.ts and Worker of src/domains/execution/worker.ts.
-- Log lines and the request id are left out; a duration is taken on a clock that does not go back.
use hyperscale_job_scheduler.Base.{ℕ, ◌+◌, ◌-◌, String, Option, none, some, List, [], ◌∷◌}
use hyperscale_job_scheduler.Exec.{Exec, Message, pure, throw, try_catch, ◌>>=◌, ◌>>◌}
use hyperscale_job_scheduler.Types.{Job, JobType}
use hyperscale_job_scheduler.Jobs.Repository.{claim_job, mark_completed, find_by_job_id}
use hyperscale_job_scheduler.Services.{Services, World, on_jobs, on_audit, on_clock, on_remote}
use hyperscale_job_scheduler.Services.Audit.{Execution, ExecutionStatus}
use hyperscale_job_scheduler.Execution.Publisher.{publish_job_claimed, publish_job_completed}
use hyperscale_job_scheduler.Execution.Heartbeat.{write_heartbeat, clear_heartbeat}
use hyperscale_job_scheduler.Execution.Retry.{handle_failure}

-- The process: its handlers by job type, its instance id, and the texts that it builds.
pub record Process (s : Services) : Type 0 where
  -- `handler.handle`: its result is not used by the executor.
  pub handlers : JobType → Option (Job → Exec s.Remote (Unit {0}))
  pub instance_id : String
  pub heartbeat_json : String → ℕ → String
  -- `error.stack`, where what was thrown is an Error with this message.
  pub stack_of : Message → Option Message
  -- `No handler registered for jobType: ${jobType}`
  pub no_handler : JobType → Message

module _ (s : Services) (p : Process s) where
  unfoldable pub date_now : Exec (World s) ℕ
  date_now = on_clock s s.clock.date_now

  abbrev pub stack_for : Option Message → Option Message
  stack_for none = none
  stack_for (some error) = p.stack_of error

  -- The record of one attempt.
  unfoldable pub execution : Job → ExecutionStatus → ℕ → ℕ → ℕ → Option Message → Execution
  execution claimed status started_at completed_at duration_ms error = record {
    job_id = claimed.job_id;
    job_type = claimed.job_type;
    tenant_id = claimed.tenant_id;
    attempt = claimed.attempts;
    status = status;
    instance_id = p.instance_id;
    started_at = started_at;
    completed_at = completed_at;
    duration_ms = duration_ms;
    error = error;
    stack = stack_for error;
  }

  unfoldable pub run_handler :
      Job → Option (Job → Exec s.Remote (Unit {0})) → Exec (World s) (Unit {0})
  run_handler claimed none = throw (p.no_handler claimed.job_type)
  run_handler claimed (some handle) = on_remote s (handle claimed)

  -- The body of the `try`.
  unfoldable pub attempt : Job → ℕ → Exec (World s) (Unit {0})
  unfolding run_handler date_now execution
  attempt claimed started_at = do
    run_handler claimed (p.handlers claimed.job_type)
    completed_at ← date_now
    ended_at ← date_now
    now ← date_now
    on_jobs s (mark_completed s.jobs claimed.job_id (claimed.version + 1) completed_at now)
    clear_heartbeat s claimed.job_id
    on_audit s (
        s.audit.create (
          execution claimed ExecutionStatus.completed started_at completed_at
            (ended_at - started_at) none))
    publish_job_completed s (record {
      job_id = claimed.job_id;
      job_type = claimed.job_type;
      tenant_id = claimed.tenant_id;
      scheduled_at = claimed.scheduled_at;
      executed_at = completed_at;
      duration_ms = ended_at - started_at;
      attempt = claimed.attempts;
    })

  -- The body of the `catch`.
  unfoldable pub attempt_failed : Job → ℕ → Message → Exec (World s) (Unit {0})
  unfolding date_now execution
  attempt_failed claimed started_at error = do
    ended_at ← date_now
    clear_heartbeat s claimed.job_id
    completed_at ← date_now
    on_audit s (
        s.audit.create (
          execution claimed ExecutionStatus.failed started_at completed_at (ended_at - started_at)
            (some error)))
    handle_failure s claimed error (claimed.version + 1)

  unfoldable pub run_claimed : Option Job → Exec (World s) (Unit {0})
  unfolding date_now
  run_claimed none = pure tt
  run_claimed (some claimed) = do
    claimed_at ← date_now
    publish_job_claimed s (record {
      job_id = claimed.job_id;
      job_type = claimed.job_type;
      tenant_id = claimed.tenant_id;
      attempt = claimed.attempts;
      claimed_at = claimed_at;
      instance_id = p.instance_id;
    })
    started_at ← date_now
    written_at ← date_now
    write_heartbeat s p.heartbeat_json claimed.job_id p.instance_id written_at
    try_catch (attempt claimed started_at) (attempt_failed claimed started_at)

  unfoldable pub execute : Job → Exec (World s) (Unit {0})
  unfolding date_now
  execute job = do
    now ← date_now
    claimed ← on_jobs s (claim_job s.jobs job.job_id job.version now)
    run_claimed claimed

  unfoldable pub run_found : Option Job → Exec (World s) (Unit {0})
  run_found none = pure tt
  run_found (some job) = execute job

  -- Worker.run
  unfoldable pub run : String → Exec (World s) (Unit {0})
  unfolding run_found
  run job_id = do job ← on_jobs s (find_by_job_id s.jobs job_id); run_found job

  -- Worker.dispatch: Promise.allSettled of the runs, here one after the other.
  unfoldable pub dispatch : List String → Exec (World s) (Unit {0})
  unfolding run try_catch
  dispatch [] = pure tt
  dispatch (job_id ∷ job_ids) = do try_catch (run job_id) (λ e. pure tt); dispatch job_ids
