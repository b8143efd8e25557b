-- ===== src/Execution/Heartbeat.antt =====
-- The job heartbeats of src/domains/watchdog/heartbeat-watchdog.ts.
use Prim.Native.String.{◌++◌}
use hyperscale_job_scheduler.Base.{ℕ, String}
use hyperscale_job_scheduler.Exec.{Exec}
use hyperscale_job_scheduler.Services.{Services, World, on_keys}

-- `${JOB_HEARTBEAT_PREFIX}:${jobId}`
unfoldable pub heartbeat_key : String → String
heartbeat_key job_id = "scheduler:job:heartbeat:" ++ job_id

-- Math.ceil((HEARTBEAT_INTERVAL_MS * 3) / 1_000)
abbrev pub heartbeat_ttl_seconds : ℕ
heartbeat_ttl_seconds = 45

-- `to_json` stands for the text of { instanceId, ts }.
module _ (s : Services) (to_json : String → ℕ → String) where
  unfoldable pub write_heartbeat : String → String → ℕ → Exec (World s) (Unit {0})
  write_heartbeat job_id instance_id now =
      on_keys s
        (s.keys.set_ex (heartbeat_key job_id) (to_json instance_id now) heartbeat_ttl_seconds)

module _ (s : Services) where
  unfoldable pub clear_heartbeat : String → Exec (World s) (Unit {0})
  clear_heartbeat job_id = on_keys s (s.keys.del (heartbeat_key job_id))
