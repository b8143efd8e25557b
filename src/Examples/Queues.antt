-- ===== src/Examples/Queues.antt =====
-- The queue's theorems at a queue of three jobs.
use hyperscale_job_scheduler.Base.{
  ℕ, String, Bool, true, false, none, [], ◌∷◌, All, ◌≡◌, ◌≢◌, refl, ◌≤◌, arith,
}
use hyperscale_job_scheduler.Exec.{ok}
use hyperscale_job_scheduler.Types.{payout_batch}
use hyperscale_job_scheduler.Queue.SortedSets.{SortedSets, has}
use hyperscale_job_scheduler.Queue.RedisJobQueue.{queue_key, dequeue, reschedule}
use hyperscale_job_scheduler.Queue.RedisJobQueue.Dequeue.{due}
use hyperscale_job_scheduler.Queue.RedisJobQueue.Batches.{dequeue_batch, dequeue_drains}
use hyperscale_job_scheduler.Queue.RedisJobQueue.Reschedule.{reschedule_after_dequeue}
use hyperscale_job_scheduler.Examples.MemorySets.{Memory, memory_sets}

abbrev pub queued : Memory
queued k =
    record { member = "a"; score = 10 }
    ∷ record { member = "b"; score = 20 }
    ∷ record { member = "c"; score = 90 }
    ∷ []

abbrev sets : SortedSets
sets = memory_sets

dequeued : (dequeue sets payout_batch 50 10 queued).0 ≡ ok ("a" ∷ "b" ∷ [])
unfolding dequeue
dequeued = refl

pub memory_replies :
    (k : String) (lo hi offset count : ℕ) (z : Memory)
    → (memory_sets.zrangebyscore k lo hi offset count z).0 ≢ ok none
memory_replies k lo hi offset count z e = cc

dequeue_batch_example :
    (2 ≤ 10)
    × All (λ i. has i (due 50 (queued (queue_key payout_batch))) ≡ true) ("a" ∷ "b" ∷ [])
    × All
        (λ i. has i ((dequeue sets payout_batch 50 10 queued).1 (queue_key payout_batch)) ≡ false)
        ("a" ∷ "b" ∷ [])
dequeue_batch_example = dequeue_batch sets payout_batch 50 10 queued ("a" ∷ "b" ∷ []) dequeued

dequeue_drains_example :
    due 50 ((dequeue sets payout_batch 50 10 queued).1 (queue_key payout_batch)) ≡ []
dequeue_drains_example =
    dequeue_drains sets memory_replies payout_batch 50 10 queued ("a" ∷ "b" ∷ []) dequeued
      (omega arith)

reschedule_after_dequeue_example :
    (◌≡◌ {A = Bool} false false)
    × ((reschedule sets payout_batch "a" 70 (dequeue sets payout_batch 50 10 queued).1).1
          (queue_key payout_batch)
        ≡ (dequeue sets payout_batch 50 10 queued).1 (queue_key payout_batch))
    × (has "a" (
          (reschedule sets payout_batch "a" 70 (dequeue sets payout_batch 50 10 queued).1).1
            (queue_key payout_batch))
        ≡ false)
unfolding reschedule dequeue
reschedule_after_dequeue_example =
    reschedule_after_dequeue sets payout_batch 50 10 70 queued ("a" ∷ "b" ∷ []) "a" false refl refl
      refl
