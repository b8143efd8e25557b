-- ===== src/Examples/Polls.antt =====
-- The poll loop at the queue of three jobs.
use hyperscale_job_scheduler.Base.{
  ℕ, String, ◌-◌, min, take, true, false, List, [], ◌∷◌, ◌++◌, ◌≡◌, refl, ◌⊎◌, All, arith,
}
use hyperscale_job_scheduler.Exec.{ok}
use hyperscale_job_scheduler.Types.{JobType, payout_batch, order_abandonment}
use hyperscale_job_scheduler.Constants.{poll_batch_size, max_concurrent_jobs}
use hyperscale_job_scheduler.Poll.{PollLoop, tick, tick_over, poll_order}
use hyperscale_job_scheduler.Queue.SortedSets.{members_of, range}
use hyperscale_job_scheduler.Queue.RedisJobQueue.{queue_key, dequeue, fetch_due, remove_fetched}
use hyperscale_job_scheduler.Poll.Source.{DueQueue}
use hyperscale_job_scheduler.Poll.Capacity.{IsWithin}
use hyperscale_job_scheduler.Poll.Priority.{IsDrained, tick-priority}
use hyperscale_job_scheduler.Poll.RedisQueue.{redis_queue}
use hyperscale_job_scheduler.Poll.Reference.{dispatch_order, due_jobs, tick-due_jobs}
use hyperscale_job_scheduler.Examples.MemorySets.{Memory, memory_sets}
use hyperscale_job_scheduler.Examples.Queues.{queued, memory_replies}

abbrev queue : DueQueue
queue = redis_queue memory_sets memory_replies

abbrev idle : PollLoop Memory
idle = record { running = true; active_jobs = 0; timer = false; queue = queued; in_flight = [] }

idle-IsWithin : IsWithin idle
idle-IsWithin = record { counted = refl; room = omega arith }

removed :
    (t : JobType) (ids : List String) (z : Memory) → (remove_fetched memory_sets t ids z).0 ≡ ok ids
unfolding remove_fetched
removed t [] z = refl
removed t (i ∷ ids) z = refl

answers :
    (t : JobType) (now count : ℕ) (z : Memory)
    → (ids : List String) × ((queue.dequeue t now count z).0 ≡ ok ids)
unfolding dequeue fetch_due
answers t now count z =
    let ids = members_of (range 0 now 0 count (z (queue_key t))) in (ids, removed t ids z)

tick-priority_example :
    (tick_over queue ((payout_batch ∷ []) ++ (order_abandonment ∷ [])) (ok 50) idle
      ≡ tick_over queue (payout_batch ∷ []) (ok 50) idle)
    ⊎ All
        (IsDrained queue 50
          (tick_over queue ((payout_batch ∷ []) ++ (order_abandonment ∷ [])) (ok 50) idle).queue)
        (payout_batch ∷ [])
tick-priority_example =
    tick-priority queue answers (payout_batch ∷ []) (order_abandonment ∷ []) 50 idle (omega arith)

tick-due_jobs_example :
    dispatch_order (tick queue (ok 50) idle).in_flight
    ≡ []
      ++ take
          (min (max_concurrent_jobs - 0) poll_batch_size)
          (due_jobs memory_sets 50 queued poll_order)
tick-due_jobs_example = tick-due_jobs memory_sets memory_replies answers 50 idle (omega arith)
