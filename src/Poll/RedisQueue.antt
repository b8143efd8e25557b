-- ===== src/Poll/RedisQueue.antt =====
-- RedisJobQueue (src/domains/scheduler/redis-job-queue.ts) as the queue of the poll loop, over a Redis
-- whose range commands always reply.
use hyperscale_job_scheduler.Base.{
  ℕ, ◌≤◌, String, none, List, [], ◌∷◌, length, includes, ◌≢◌, ap, subst, inl, inr, arith,
  str_eq-cases, Bool-cases,
}
use hyperscale_job_scheduler.Exec.{ok}
use hyperscale_job_scheduler.Types.{JobType}
use hyperscale_job_scheduler.Queue.SortedSets.{SortedSets, Entry, without}
use hyperscale_job_scheduler.Queue.RedisJobQueue.{queue_key, dequeue}
use hyperscale_job_scheduler.Queue.RedisJobQueue.Dequeue.{due, dequeue-entries, dequeue-entries_ne}
use hyperscale_job_scheduler.Queue.RedisJobQueue.Batches.{dequeue_batch, dequeue_drains}
use hyperscale_job_scheduler.Poll.Source.{DueQueue}

length-due-without :
    (now : ℕ) (ids : List String) (es : List Entry)
    → length (due now (without ids es)) ≤ length (due now es)
length-due-without now ids [] = omega arith
length-due-without now ids (e ∷ es) = elim (Bool-cases (includes ids e.member)) [
  | inl gone ↦ rw gone (ground (arith, length-due-without now ids es))
  | inr kept ↦ rw kept (ground (arith, length-due-without now ids es))
]

module _ (r : SortedSets) where
  open r use {Sets, entries, zrangebyscore}

  abbrev count_due : ℕ → JobType → Sets → ℕ
  count_due now t z = length (due now (entries z (queue_key t)))

  pub dequeue-adds_none :
      (t u : JobType) (now count : ℕ) (z : Sets)
      → count_due now u (dequeue r t now count z).1 ≤ count_due now u z
  dequeue-adds_none t u now count z = elim (str_eq-cases (queue_key t) (queue_key u)) [
    | inr (_, other) ↦ rw (dequeue-entries_ne r t now count (queue_key u) z other) (omega arith)
    | inl same ↦
        subst
          (λ k.
            length (due now (entries (dequeue r t now count z).1 k))
            ≤ length (due now (entries z k)))
          same
          (elim (dequeue-entries r t now count z) [
            | inl e ↦ rw e (omega arith)
            | inr (ids, e) ↦ rw e (length-due-without now ids (entries z (queue_key t)))
          ])
  ]

  module _
      (replies : (k : String) (lo hi offset count : ℕ) (z : Sets)
        → (zrangebyscore k lo hi offset count z).0 ≢ ok none) where
    abbrev pub redis_queue : DueQueue
    redis_queue = record {
      Queue = Sets;
      dequeue = dequeue r;
      due_count = count_due;
      dequeue_bounded = λ t now count z ids e. (dequeue_batch r t now count z ids e).0;
      dequeue_drains = λ t now count z ids e short.
          ap length (dequeue_drains r replies t now count z ids e short);
      dequeue_adds_none = dequeue-adds_none;
    }
