-- ===== src/Queue/RedisJobQueue.antt =====
-- RedisJobQueue of src/domains/scheduler/redis-job-queue.ts: one sorted set for each job type, with
-- the time of the next run in milliseconds as the score. Log lines are left out.
pub mod Dequeue
pub mod Batches
pub mod Reschedule
pub mod Peek
use hyperscale_job_scheduler.Base.{ℕ, String, Bool, Option, none, some, List, [], ◌∷◌, ◌==◌}
use hyperscale_job_scheduler.Exec.{Exec, pure, ◌>>=◌, ◌>>◌}
use hyperscale_job_scheduler.Types.{
  JobType, reservation_expiry, payout_batch, order_abandonment, low_stock_alert, scheduled_report,
}
use hyperscale_job_scheduler.Queue.SortedSets.{SortedSets, nx, xx}

-- QUEUE_KEY_MAP
abbrev pub queue_key : JobType → String
queue_key reservation_expiry = "scheduler:queue:RESERVATION_EXPIRY"
queue_key payout_batch = "scheduler:queue:PAYOUT_BATCH"
queue_key order_abandonment = "scheduler:queue:ORDER_ABANDONMENT"
queue_key low_stock_alert = "scheduler:queue:LOW_STOCK_ALERT"
queue_key scheduled_report = "scheduler:queue:SCHEDULED_REPORT"

-- `(results?.[0]?.[1] as string[]) ?? []`
abbrev or_empty : Option (List String) → List String
or_empty none = []
or_empty (some ids) = ids

module _ (r : SortedSets) where
  open r use {Sets, zadd, zrangebyscore, zrem, zcard, zcount}

  unfoldable pub enqueue : JobType → String → ℕ → Exec Sets Bool
  unfolding ◌>>=◌
  enqueue job_type job_id next_run_at_ms = do
    added ← zadd (queue_key job_type) nx next_run_at_ms job_id
    pure (added == 1)

  -- The two commands of a dequeue, between which other clients of Redis may act.
  unfoldable pub fetch_due : JobType → ℕ → ℕ → Exec Sets (List String)
  unfolding ◌>>=◌
  fetch_due job_type now_ms count = do
    results ← zrangebyscore (queue_key job_type) 0 now_ms 0 count
    pure (or_empty results)

  unfoldable pub remove_fetched : JobType → List String → Exec Sets (List String)
  unfolding ◌>>=◌
  remove_fetched job_type [] = pure []
  remove_fetched job_type (id ∷ ids) = do zrem (queue_key job_type) (id ∷ ids); pure (id ∷ ids)

  unfoldable pub dequeue : JobType → ℕ → ℕ → Exec Sets (List String)
  unfolding fetch_due remove_fetched ◌>>=◌
  dequeue job_type now_ms count = do
    job_ids ← fetch_due job_type now_ms count
    remove_fetched job_type job_ids

  unfoldable pub remove : JobType → String → Exec Sets Bool
  unfolding ◌>>=◌
  remove job_type job_id = do removed ← zrem (queue_key job_type) (job_id ∷ []); pure (removed == 1)

  unfoldable pub reschedule : JobType → String → ℕ → Exec Sets Bool
  unfolding ◌>>=◌
  reschedule job_type job_id next_run_at_ms = do
    updated ← zadd (queue_key job_type) xx next_run_at_ms job_id
    pure (updated == 1)

  unfoldable pub size : JobType → Exec Sets ℕ
  size job_type = zcard (queue_key job_type)

  unfoldable pub depth : JobType → ℕ → Exec Sets ℕ
  depth job_type now_ms = zcount (queue_key job_type) 0 now_ms
