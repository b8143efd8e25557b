-- ===== src/Watchdog.antt =====
-- HeartbeatWatchdog of src/domains/watchdog/heartbeat-watchdog.ts: its timer and its tick. The job
-- heartbeats that it writes and clears for the executor stand in Execution.Heartbeat. Log lines are
-- left out.
pub mod Recovery
use hyperscale_job_scheduler.Base.{ℕ, Bool, true, false, if◌then◌else◌}
use hyperscale_job_scheduler.Exec.{Exec, pure, try_catch, ◌>>=◌, ◌>>◌}
use hyperscale_job_scheduler.Constants.{stale_running_job_age_ms}
use hyperscale_job_scheduler.Jobs.Repository.{reset_stale_jobs}
use hyperscale_job_scheduler.Services.{Services, World, on_jobs, on_clock}

-- `timer` tells whether a timeout is set.
pub record HeartbeatWatchdog : Type 0 where
  pub running : Bool
  pub timer : Bool

unfoldable pub schedule_tick : HeartbeatWatchdog → HeartbeatWatchdog
schedule_tick d = record d { timer = true }

unfoldable pub start : HeartbeatWatchdog → HeartbeatWatchdog
unfolding schedule_tick
start d = if d.running then d else schedule_tick (record d { running = true })

unfoldable pub stop : HeartbeatWatchdog → HeartbeatWatchdog
stop d = record d { running = false; timer = false }

-- What the timer's callback does to the timer, once its tick is over.
unfoldable pub rearm : HeartbeatWatchdog → HeartbeatWatchdog
unfolding schedule_tick
rearm d = if d.running then schedule_tick d else d

module _ (s : Services) where
  -- The clock is read by resetStaleJobs.
  unfoldable pub reset_once : Exec (World s) ℕ
  unfolding ◌>>=◌
  reset_once = do
    now ← on_clock s s.clock.date_now
    on_jobs s (reset_stale_jobs s.jobs stale_running_job_age_ms now)

  unfoldable pub tick : Exec (World s) (Unit {0})
  unfolding reset_once try_catch ◌>>=◌
  tick = try_catch (do reset_once; pure tt) (λ _. pure tt)
