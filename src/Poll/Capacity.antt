-- ===== src/Poll/Capacity.antt =====
-- The executor's capacity: a tick never takes more than is free, and takes nothing near the limit.
use hyperscale_job_scheduler.Base.{
  ℕ, ◌+◌, ◌-◌, ◌≤◌, min, String, List, [], ◌∷◌, length, ltb, ◌==◌, ◌≡◌, refl, inl, inr, arith,
  Bool-cases,
}
use hyperscale_job_scheduler.Exec.{Result, ok, err}
use hyperscale_job_scheduler.Types.{JobType}
use hyperscale_job_scheduler.Constants.{poll_batch_size, min_free_slots, max_concurrent_jobs}
use hyperscale_job_scheduler.Poll.{
  PollLoop, Batch, poll_order, dispatched, poll_type, poll_types, tick,
}
use hyperscale_job_scheduler.Poll.Source.{DueQueue}

-- The jobs of all batches in flight.
abbrev pub jobs_in : List Batch → ℕ
jobs_in [] = 0
jobs_in (b ∷ bs) = length b.job_ids + jobs_in bs

-- The counter counts the jobs in flight, and with the slots that a tick may still fill it stays
-- within a limit.
pub record HasRoom {Q : Type 0} (limit remaining : ℕ) (s : PollLoop Q) : Type 0 where
  pub counted : s.active_jobs ≡ jobs_in s.in_flight
  pub room : s.active_jobs + remaining ≤ limit

abbrev pub IsWithin : {Q : Type 0} → PollLoop Q → Type 0
IsWithin s = HasRoom max_concurrent_jobs 0 s

pub dispatched-HasRoom :
    {Q : Type 0} (limit : ℕ) (t : JobType) (n : ℕ) (r : Result (List String)) (q : Q)
    (s : PollLoop Q)
    → ((ids : List String) → r ≡ ok ids → length ids ≤ n)
    → HasRoom limit n s
    → HasRoom limit (dispatched t n r q s).0 (dispatched t n r q s).1
unfolding dispatched
dispatched-HasRoom limit t n (err e) q s b h = record { counted = h.counted; room = h.room }
dispatched-HasRoom limit t n (ok []) q s b h = record { counted = h.counted; room = h.room }
dispatched-HasRoom limit t n (ok (i ∷ ids)) q s b h = record {
  counted = omega (arith, h.counted);
  room = omega (arith, h.room, b (i ∷ ids) refl);
}

module _ (dq : DueQueue) where
  open dq use {Queue, dequeue, dequeue_bounded}

  poll_type-HasRoom :
      (limit now : ℕ) (t : JobType) (n : ℕ) (s : PollLoop Queue)
      → HasRoom limit n s
      → HasRoom limit (poll_type dq now t (n, s)).0 (poll_type dq now t (n, s)).1
  unfolding poll_type
  poll_type-HasRoom limit now t n s h = elim (Bool-cases (n == 0)) [
    | inl none_left ↦ rw none_left h
    | inr some_left ↦
        rw some_left
          (dispatched-HasRoom limit t n _ _ s (λ ids. dequeue_bounded t now n s.queue ids) h)
  ]

  poll_types-HasRoom :
      (limit now : ℕ) (ts : List JobType) (p : ℕ × PollLoop Queue)
      → HasRoom limit p.0 p.1
      → HasRoom limit (poll_types dq now ts p).0 (poll_types dq now ts p).1
  unfolding poll_types
  poll_types-HasRoom limit now [] p h = h
  poll_types-HasRoom limit now (t ∷ ts) p h =
      poll_types-HasRoom limit now ts (poll_type dq now t p)
        (poll_type-HasRoom limit now t p.0 p.1 h)

  polled-HasRoom :
      (limit now : ℕ) (s : PollLoop Queue)
      → s.active_jobs ≡ jobs_in s.in_flight
      → s.active_jobs + min (max_concurrent_jobs - s.active_jobs) poll_batch_size ≤ limit
      → let p =
          poll_types dq now poll_order
            (min (max_concurrent_jobs - s.active_jobs) poll_batch_size, s) in
        HasRoom limit p.0 p.1
  polled-HasRoom limit now s counted room =
      poll_types-HasRoom limit now poll_order _ (record { counted = counted; room = room })

  -- A tick keeps the counter equal to the number of jobs in flight and within MAX_CONCURRENT_JOBS,
  -- whatever Redis answers to the time request and to each dequeue.
  tick-IsWithin : (time : Result ℕ) (s : PollLoop Queue) → IsWithin s → IsWithin (tick dq time s)
  unfolding tick
  tick-IsWithin (err e) s h = ground arith
  tick-IsWithin (ok now) s h =
      elim (Bool-cases (ltb (max_concurrent_jobs - s.active_jobs) min_free_slots)) [
        | inl full ↦ rw full h
        | inr free ↦
            let p = polled-HasRoom max_concurrent_jobs now s h.counted (omega (arith, h.room)) in
            rw free (record { counted = p.counted; room = omega (arith, p.room) })
      ]

  -- A tick takes at most POLL_BATCH_SIZE jobs, and never more than were free.
  tick_takes :
      (time : Result ℕ) (s : PollLoop Queue)
      → IsWithin s
      → jobs_in (tick dq time s).in_flight
        ≤ jobs_in s.in_flight + min (max_concurrent_jobs - s.active_jobs) poll_batch_size
  unfolding tick
  tick_takes (err e) s h = ground arith
  tick_takes (ok now) s h =
      elim (Bool-cases (ltb (max_concurrent_jobs - s.active_jobs) min_free_slots)) [
        | inl full ↦ rw full (omega arith)
        | inr free ↦
            let p =
              polled-HasRoom
                (s.active_jobs + min (max_concurrent_jobs - s.active_jobs) poll_batch_size) now s
                h.counted (omega arith) in
            rw free (omega (arith, p.room, p.counted, h.counted))
      ]
