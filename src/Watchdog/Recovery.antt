-- ===== src/Watchdog/Recovery.antt =====
-- What a tick of the watchdog does for the jobs, and what it leaves undone.
use hyperscale_job_scheduler.Base.{
  ltb, ◌-◌, true, ℕ, ◌+◌, ◌<◌, String, none, some, ◌≡◌, refl, ◌∙◌, ap, arith,
}
use native.Mathlib.Nat.{add-zero}
use hyperscale_job_scheduler.Exec.{ok}
use hyperscale_job_scheduler.Constants.{stale_running_job_age_ms}
use hyperscale_job_scheduler.Types.{Job, pending, running}
use hyperscale_job_scheduler.Jobs.Update.{restarted}
use hyperscale_job_scheduler.Jobs.Repository.{reset_stale_jobs, stale_filter, stale_update}
use hyperscale_job_scheduler.Services.{Services, World, on_jobs, on_clock}
use hyperscale_job_scheduler.Watchdog.{tick}

restarted_stale :
    (now t : ℕ) (j : Job)
    → j.status ≡ running
    → j.started_at ≡ some t
    → t + stale_running_job_age_ms < now
    → restarted (stale_filter now stale_running_job_age_ms) stale_update (some j)
      ≡ some (record j { status = pending; started_at = none })
unfolding restarted stale_filter stale_update
restarted_stale now t j r st late =
    let before : ltb t (now - stale_running_job_age_ms) ≡ true = ground arith in
    rw (r, st, before) (rw (add-zero j.attempts) refl)

module _ (s : Services) where
  open s use {jobs.{doc, update_many-result}}

  -- A tick at a time at which resetStaleJobs succeeds makes a job that has been running for more than
  -- STALE_RUNNING_JOB_AGE_MS pending again, with its version and its attempts as they were. It returns,
  -- and it leaves every queue as it is: the job is not put back into its queue.
  pub tick_recovers :
      (w : World s) (now n t : ℕ) (k : String) (j : Job)
      → (s.clock.date_now w.time).0 ≡ ok now
      → (reset_stale_jobs s.jobs stale_running_job_age_ms now w.jobs).0 ≡ ok n
      → doc w.jobs k ≡ some j
      → j.status ≡ running
      → j.started_at ≡ some t
      → t + stale_running_job_age_ms < now
      → (doc (tick s w).1.jobs k ≡ some (record j { status = pending; started_at = none }))
        × ((tick s w).1.sets ≡ w.sets)
        × ((tick s w).0 ≡ ok tt)
  unfolding tick on_clock on_jobs reset_stale_jobs
  tick_recovers w now n t k j clock reset there r st late =
      rw (clock, reset)
        (
          update_many-result (stale_filter now stale_running_job_age_ms) stale_update k w.jobs n
                reset
              ∙ ap (restarted (stale_filter now stale_running_job_age_ms) stale_update) there
              ∙ restarted_stale now t j r st late,
          refl,
          refl,
        )
