-- ===== src/Poll/Reference.antt =====
-- The priority polling of src/domains/scheduler/poll-loop.ts against one queue: the due jobs of all types in
-- the order of POLL_ORDER, the earliest first within a type, of which a tick takes from the front.
use hyperscale_job_scheduler.Base.{
  ℕ, zero, suc, ◌+◌, ◌-◌, ◌≤◌, min, String, false, none, List, [], ◌∷◌, ◌++◌, take, length, All,
  str_eq, ◌==◌, ◌≡◌, ◌≢◌, refl, sym, inl, inr, arith, Bool-cases, length-take, append_assoc,
  append_nil, take-append, map-take,
}
use hyperscale_job_scheduler.Exec.{ok}
use hyperscale_job_scheduler.Types.{JobType}
use hyperscale_job_scheduler.Constants.{poll_batch_size, min_free_slots, max_concurrent_jobs}
use hyperscale_job_scheduler.Queue.SortedSets.{SortedSets, Entry, members_of}
use hyperscale_job_scheduler.Queue.RedisJobQueue.{queue_key, dequeue}
use hyperscale_job_scheduler.Queue.RedisJobQueue.Dequeue.{
  due, taken, dequeue_replied, dequeue-entries_ne,
}
use hyperscale_job_scheduler.Poll.{
  PollLoop, Batch, poll_order, dispatched, poll_type, poll_types, tick,
}
use hyperscale_job_scheduler.Poll.Source.{DueQueue}
use hyperscale_job_scheduler.Poll.RedisQueue.{redis_queue}
use hyperscale_job_scheduler.Poll.Priority.{tick_over_lem, poll_types_none_left}

-- The jobs of the batches in flight, in the order in which they were dispatched.
abbrev pub dispatch_order : List Batch → List String
dispatch_order [] = []
dispatch_order (b ∷ bs) = dispatch_order bs ++ b.job_ids

-- No two of the types share a queue.
abbrev HasOwnQueues : List JobType → Type 0
HasOwnQueues [] = Unit {0}
HasOwnQueues (t ∷ ts) = All (λ u. str_eq (queue_key t) (queue_key u) ≡ false) ts × HasOwnQueues ts

dispatched-order :
    {Q : Type 0} (t : JobType) (n : ℕ) (ids : List String) (q : Q) (s : PollLoop Q)
    → ((dispatched t n (ok ids) q s).0 ≡ n - length ids)
      × (((dispatched t n (ok ids) q s).1.queue ≡ q)
          × (dispatch_order (dispatched t n (ok ids) q s).1.in_flight
              ≡ dispatch_order s.in_flight ++ ids))
unfolding dispatched
dispatched-order t n [] q s = (omega arith, (refl, sym (append_nil _)))
dispatched-order t n (i ∷ ids) q s = (refl, (refl, refl))

poll_types_some_left :
    (dq : DueQueue) (now : ℕ) (t : JobType) (ts : List JobType) (n : ℕ) (s : PollLoop dq.Queue)
    → (n == 0) ≡ false
    → poll_types dq now (t ∷ ts) (n, s)
      ≡ poll_types dq now ts
          (dispatched t n (dq.dequeue t now n s.queue).0 (dq.dequeue t now n s.queue).1 s)
unfolding poll_types poll_type
poll_types_some_left dq now t ts n s e = rw e refl

module _ (r : SortedSets) where
  open r use {Sets, entries}

  -- The due jobs of these types, as one queue.
  abbrev pub due_jobs : ℕ → Sets → List JobType → List String
  due_jobs now z [] = []
  due_jobs now z (t ∷ ts) = members_of (due now (entries z (queue_key t))) ++ due_jobs now z ts

module _ (r : SortedSets) where
  open r use {Sets, entries, zrangebyscore}

  due_jobs-dequeue :
      (t : JobType) (now n : ℕ) (z : Sets) (ts : List JobType)
      → All (λ u. str_eq (queue_key t) (queue_key u) ≡ false) ts
      → due_jobs r now (dequeue r t now n z).1 ts ≡ due_jobs r now z ts
  due_jobs-dequeue t now n z [] h = refl
  due_jobs-dequeue t now n z (u ∷ ts) h =
      rw (dequeue-entries_ne r t now n (queue_key u) z h.0, due_jobs-dequeue t now n z ts h.1) refl

  due_jobs-take :
      (t : JobType) (ts : List JobType) (now n : ℕ) (z : Sets)
      → let ids = taken now n (entries z (queue_key t)) in
        take n (due_jobs r now z (t ∷ ts)) ≡ ids ++ take (n - length ids) (due_jobs r now z ts)
  due_jobs-take t ts now n z =
      rw
        (
          take-append n (members_of es) (due_jobs r now z ts),
          map-take (λ (e : Entry). e.member) n es,
          fewer,
        )
        refl
    where
      es : List Entry
      es = due now (entries z (queue_key t))

      fewer : n - length (take n (members_of es)) ≡ n - length (members_of es)
      fewer = omega (arith, length-take {0} n (members_of es))

  module _
      (replies : (k : String) (lo hi offset count : ℕ) (z : Sets)
        → (zrangebyscore k lo hi offset count z).0 ≢ ok none)
      (answers : (t : JobType) (now n : ℕ) (z : Sets)
        → (ids : List String) × ((dequeue r t now n z).0 ≡ ok ids)) where
    abbrev queue : DueQueue
    queue = redis_queue r replies

    poll_types-due_jobs :
        (now : ℕ) (ts : List JobType) (n : ℕ) (s : PollLoop Sets)
        → HasOwnQueues ts
        → dispatch_order (poll_types queue now ts (n, s)).1.in_flight
          ≡ dispatch_order s.in_flight ++ take n (due_jobs r now s.queue ts)
    unfolding poll_types
    poll_types-due_jobs now [] zero s h = sym (append_nil _)
    poll_types-due_jobs now [] (suc n) s h = sym (append_nil _)
    poll_types-due_jobs now (t ∷ ts) n s h = elim (Bool-cases (n == 0)) [
      | inl none_left ↦
          let z : n ≡ 0 = ground arith in
          rw (poll_types_none_left queue now (t ∷ ts) n s z, z) (sym (append_nil _))
      | inr some_left ↦
          let (ids, got) = answers t now n s.queue in
          let q = (dequeue r t now n s.queue).1 in
          let (left, (same, order)) = dispatched-order t n ids q s in
          let p = dispatched t n (ok ids) q s in
          let batch = dequeue_replied r replies t now n s.queue ids got in
          rw
            (
              poll_types_some_left queue now t ts n s some_left,
              got,
              poll_types-due_jobs now ts p.0 p.1 h.1,
              left,
              same,
              order,
              due_jobs-dequeue t now n s.queue ts h.0,
              due_jobs-take t ts now n s.queue,
              append_assoc (dispatch_order s.in_flight) ids
                  (take (n - length ids) (due_jobs r now s.queue ts)),
              batch,
            )
            refl
    ]

    -- With enough slots free and the time known, a tick dispatches exactly the first of the due jobs of
    -- all types, in the order of POLL_ORDER and of their due times: as many as there are free slots,
    -- and POLL_BATCH_SIZE at most. Every range command replies, and no dequeue throws.
    pub tick-due_jobs :
        (now : ℕ) (s : PollLoop Sets)
        → s.active_jobs + min_free_slots ≤ max_concurrent_jobs
        → dispatch_order (tick queue (ok now) s).in_flight
          ≡ dispatch_order s.in_flight
            ++ take
                (min (max_concurrent_jobs - s.active_jobs) poll_batch_size)
                (due_jobs r now s.queue poll_order)
    unfolding tick
    tick-due_jobs now s free = rw (tick_over_lem queue poll_order now s free) (
        poll_types-due_jobs now poll_order
          (min (max_concurrent_jobs - s.active_jobs) poll_batch_size) s own)
      where
        own : HasOwnQueues poll_order
        own = (
          (refl, (refl, (refl, (refl, tt)))),
          ((refl, (refl, (refl, tt))), ((refl, (refl, tt)), ((refl, tt), (tt, tt)))),
        )
