-- ===== src/OutboxPoller/Timer.antt =====
-- The timer of src/shared/utils/outbox-poller.ts: startOutboxPoller and stopOutboxPoller.
use hyperscale_job_scheduler.Base.{Bool, true, false, if◌then◌else◌}

-- `timer` tells whether a timeout is set.
pub record PollerTimer : Type 0 where
  pub running : Bool
  pub timer : Bool

unfoldable pub schedule_tick : PollerTimer → PollerTimer
schedule_tick t = record t { timer = true }

unfoldable pub start_outbox_poller : PollerTimer → PollerTimer
unfolding schedule_tick
start_outbox_poller t = if t.running then t else schedule_tick (record t { running = true })

unfoldable pub stop_outbox_poller : PollerTimer → PollerTimer
stop_outbox_poller t = record t { running = false; timer = false }

-- What the timer's callback does to the timer, once its tick is over.
unfoldable pub rearm : PollerTimer → PollerTimer
unfolding schedule_tick
rearm t = if t.running then schedule_tick t else t
