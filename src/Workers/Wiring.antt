-- ===== src/Workers/Wiring.antt =====
-- The executor as src/bootStrap.ts builds it, with the handlers of src/domains/workers/. The other
-- services that it posts to stand behind axios.
use hyperscale_job_scheduler.Base.{Option, some}
use hyperscale_job_scheduler.Exec.{Exec, pure, ◌>>=◌, ◌>>◌}
use hyperscale_job_scheduler.Types.{Job, JobType}
use hyperscale_job_scheduler.Services.{Services}
use hyperscale_job_scheduler.Execution.Executor.{Process}
use hyperscale_job_scheduler.Workers.{HttpClient, Desk, handlers}

abbrev pub wired : Services → HttpClient → Services
wired s h = record s { Remote = Desk h }

module _ (h : HttpClient) where
  -- The executor does not use the result of a handler.
  unfoldable pub handler_for : JobType → Option (Job → Exec (Desk h) (Unit {0}))
  unfolding ◌>>=◌
  handler_for job_type = some (λ job. do handlers h job_type job; pure tt)

-- `new JobExecutor({ ... }, watchdog)`
unfoldable pub job_executor :
    (s : Services) (h : HttpClient) → Process (wired s h) → Process (wired s h)
unfolding handler_for
job_executor s h p = record p { handlers = handler_for h }
