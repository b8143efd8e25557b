-- ===== src/Poll/Source.antt =====
-- What the poll loop needs of its queue: the operation and the laws that src/domains/scheduler/
-- poll-loop.ts relies on. RedisQueue fills it with RedisJobQueue.
use hyperscale_job_scheduler.Base.{ℕ, ◌≤◌, ◌<◌, String, List, length, ◌≡◌}
use hyperscale_job_scheduler.Exec.{Exec, ok}
use hyperscale_job_scheduler.Types.{JobType}

pub record DueQueue : Type 1 where
  pub Queue : Type 0
  pub dequeue : JobType → ℕ → ℕ → Exec Queue (List String)
  -- How many jobs of a type are due.
  pub due_count : ℕ → JobType → Queue → ℕ
  pub dequeue_bounded :
      (t : JobType) (now count : ℕ) (q : Queue) (ids : List String)
      → (dequeue t now count q).0 ≡ ok ids
      → length ids ≤ count
  pub dequeue_drains :
      (t : JobType) (now count : ℕ) (q : Queue) (ids : List String)
      → (dequeue t now count q).0 ≡ ok ids
      → length ids < count
      → due_count now t (dequeue t now count q).1 ≡ 0
  pub dequeue_adds_none :
      (t u : JobType) (now count : ℕ) (q : Queue)
      → due_count now u (dequeue t now count q).1 ≤ due_count now u q
