-- ===== src/Poll.antt =====
-- PollLoop of src/domains/scheduler/poll-loop.ts: the state of the loop, its timer, one tick, and the
-- batches in flight. Log lines are left out. The dispatcher's promise is the batch in `in_flight`: it
-- settles later, at a time that the loop does not control.
pub mod Source
pub mod Capacity
pub mod Interleaving
pub mod Priority
pub mod RedisQueue
pub mod Reference
pub mod Drain
use hyperscale_job_scheduler.Base.{
  ℕ, zero, suc, ◌+◌, ◌-◌, min, String, Bool, true, false, List, [], ◌∷◌, ◌++◌, length, ltb, ◌==◌,
  if◌then◌else◌, ◌≡◌,
}
use hyperscale_job_scheduler.Exec.{Result, ok, err}
use hyperscale_job_scheduler.Types.{
  JobType, reservation_expiry, payout_batch, order_abandonment, low_stock_alert, scheduled_report,
}
use hyperscale_job_scheduler.Constants.{poll_batch_size, min_free_slots, max_concurrent_jobs}
use Source.{DueQueue}

-- POLL_ORDER
abbrev pub poll_order : List JobType
poll_order =
    reservation_expiry ∷ payout_batch ∷ order_abandonment ∷ low_stock_alert ∷ scheduled_report ∷ []

pub record Batch : Type 0 where
  pub job_ids : List String
  pub job_type : JobType

-- The fields of the object, with the queue that it polls and the batches whose dispatch has not
-- settled. `timer` tells whether a timeout is set.
pub record PollLoop (Q : Type 0) : Type 0 where
  pub running : Bool
  pub active_jobs : ℕ
  pub timer : Bool
  pub queue : Q
  pub in_flight : List Batch

module _ {Q : Type 0} where
  unfoldable pub schedule_next_tick : PollLoop Q → PollLoop Q
  schedule_next_tick s = if s.running then record s { timer = true } else s

  unfoldable pub start : PollLoop Q → PollLoop Q
  unfolding schedule_next_tick
  start s = if s.running then s else schedule_next_tick (record s { running = true })

  unfoldable pub stop : PollLoop Q → PollLoop Q
  stop s = record s { running = false; timer = false }

  -- The `finally` of a dispatch: `Math.max(0, activeJobs - n)`.
  unfoldable pub settle : Batch → List Batch → PollLoop Q → PollLoop Q
  settle b others s = record s {
    active_jobs = s.active_jobs - length b.job_ids;
    in_flight = others;
  }

  -- The body of the loop over the job types, after its `dequeue` gave this result.
  unfoldable pub dispatched : JobType → ℕ → Result (List String) → Q → PollLoop Q → ℕ × PollLoop Q
  dispatched job_type remaining (err e) q s = (remaining, record s { queue = q })
  dispatched job_type remaining (ok []) q s = (remaining, record s { queue = q })
  dispatched job_type remaining (ok (id ∷ ids)) q s = (
    remaining - length (id ∷ ids),
    record s {
      queue = q;
      active_jobs = s.active_jobs + length (id ∷ ids);
      in_flight = record { job_ids = id ∷ ids; job_type = job_type } ∷ s.in_flight;
    },
  )

module _ (dq : DueQueue) where
  open dq use {Queue, dequeue}

  -- One job type, while slots remain. The slots left are a number, so `<= 0` is `0`.
  unfoldable pub poll_type : ℕ → JobType → ℕ × PollLoop Queue → ℕ × PollLoop Queue
  unfolding dispatched
  poll_type now job_type (remaining, s) =
      let (result, q) = dequeue job_type now remaining s.queue in
      if remaining == 0 then (remaining, s) else dispatched job_type remaining result q s

  -- After `break` no later type is polled, which is what polling with no slot left does.
  unfoldable pub poll_types : ℕ → List JobType → ℕ × PollLoop Queue → ℕ × PollLoop Queue
  poll_types now [] p = p
  poll_types now (t ∷ ts) p = poll_types now ts (poll_type now t p)

  -- A tick over these types. The time is what Redis answers. `freeSlots` below zero and at zero are
  -- both below `MIN_FREE_SLOTS`.
  unfoldable pub tick_over : List JobType → Result ℕ → PollLoop Queue → PollLoop Queue
  tick_over types time s =
      let free_slots = max_concurrent_jobs - s.active_jobs in
      if ltb free_slots min_free_slots then s else (elim time [
        | err e ↦ s
        | ok now ↦ (poll_types now types (min free_slots poll_batch_size, s)).1
      ])

  unfoldable pub tick : Result ℕ → PollLoop Queue → PollLoop Queue
  unfolding tick_over
  tick = tick_over poll_order

  -- The timer's callback.
  unfoldable pub fire : Result ℕ → PollLoop Queue → PollLoop Queue
  unfolding tick schedule_next_tick
  fire time s = schedule_next_tick (tick time (record s { timer = false }))
