-- ===== src/Poll/Priority.antt =====
-- Strict priority: a job type is polled only when all earlier ones have nothing due.
use hyperscale_job_scheduler.Base.{
  ℕ, ◌+◌, ◌-◌, ◌≤◌, ◌<◌, min, String, List, [], ◌∷◌, ◌++◌, length, All, All-map, ◌==◌, ◌≡◌, refl,
  ap, ◌⊎◌, inl, inr, arith, Bool-cases,
}
use hyperscale_job_scheduler.Exec.{Result, ok, err}
use hyperscale_job_scheduler.Types.{JobType}
use hyperscale_job_scheduler.Constants.{poll_batch_size, min_free_slots, max_concurrent_jobs}
use hyperscale_job_scheduler.Poll.{PollLoop, dispatched, poll_type, poll_types, tick_over}
use hyperscale_job_scheduler.Poll.Source.{DueQueue}

module _ (dq : DueQueue) where
  open dq use {Queue, dequeue, due_count, dequeue_drains, dequeue_adds_none}

  -- Nothing of this type is due.
  abbrev pub IsDrained : ℕ → Queue → JobType → Type 0
  IsDrained now q t = due_count now t q ≡ 0

module _ (dq : DueQueue) where
  open dq use {Queue, dequeue, due_count, dequeue_drains, dequeue_adds_none}

  dispatched-queue :
      (t : JobType) (n : ℕ) (r : Result (List String)) (q : Queue) (s : PollLoop Queue)
      → (dispatched t n r q s).1.queue ≡ q
  unfolding dispatched
  dispatched-queue t n (err e) q s = refl
  dispatched-queue t n (ok []) q s = refl
  dispatched-queue t n (ok (i ∷ ids)) q s = refl

  dispatched-short :
      (t : JobType) (n : ℕ) (r : Result (List String)) (ids : List String) (q : Queue)
      (s : PollLoop Queue)
      → r ≡ ok ids
      → 0 < (dispatched t n r q s).0
      → length ids < n
  unfolding dispatched
  dispatched-short t n (err e) ids q s p h = cc
  dispatched-short t n (ok []) ids q s p h = ground arith
  dispatched-short t n (ok (i ∷ js)) ids q s p h = ground arith

  dispatched-le :
      (t : JobType) (n : ℕ) (r : Result (List String)) (q : Queue) (s : PollLoop Queue)
      → (dispatched t n r q s).0 ≤ n
  unfolding dispatched
  dispatched-le t n (err e) q s = omega arith
  dispatched-le t n (ok []) q s = omega arith
  dispatched-le t n (ok (i ∷ ids)) q s = omega arith

  poll_type-le : (now : ℕ) (t : JobType) (p : ℕ × PollLoop Queue) → (poll_type dq now t p).0 ≤ p.0
  unfolding poll_type
  poll_type-le now t (n, s) = elim (Bool-cases (n == 0)) [
    | inl e ↦ rw e (omega arith)
    | inr e ↦ rw e (dispatched-le t n _ _ s)
  ]

  poll_types-le :
      (now : ℕ) (ts : List JobType) (p : ℕ × PollLoop Queue) → (poll_types dq now ts p).0 ≤ p.0
  unfolding poll_types
  poll_types-le now [] p = omega arith
  poll_types-le now (t ∷ ts) p =
      omega (arith, poll_types-le now ts (poll_type dq now t p), poll_type-le now t p)

  poll_type-IsDrained :
      (now : ℕ) (t u : JobType) (p : ℕ × PollLoop Queue)
      → IsDrained dq now p.1.queue u
      → IsDrained dq now (poll_type dq now t p).1.queue u
  unfolding poll_type
  poll_type-IsDrained now t u (n, s) h = elim (Bool-cases (n == 0)) [
    | inl e ↦ rw e h
    | inr e ↦
        rw (e, dispatched-queue t n (dequeue t now n s.queue).0 (dequeue t now n s.queue).1 s)
          (omega (arith, dequeue_adds_none t u now n s.queue))
  ]

  poll_types-IsDrained :
      (now : ℕ) (ts : List JobType) (u : JobType) (p : ℕ × PollLoop Queue)
      → IsDrained dq now p.1.queue u
      → IsDrained dq now (poll_types dq now ts p).1.queue u
  unfolding poll_types
  poll_types-IsDrained now [] u p h = h
  poll_types-IsDrained now (t ∷ ts) u p h =
      poll_types-IsDrained now ts u (poll_type dq now t p) (poll_type-IsDrained now t u p h)

  poll_types-append :
      (now : ℕ) (xs ys : List JobType) (p : ℕ × PollLoop Queue)
      → poll_types dq now (xs ++ ys) p ≡ poll_types dq now ys (poll_types dq now xs p)
  unfolding poll_types
  poll_types-append now [] ys p = refl
  poll_types-append now (x ∷ xs) ys p = poll_types-append now xs ys (poll_type dq now x p)

  pub poll_types_none_left :
      (now : ℕ) (ts : List JobType) (n : ℕ) (s : PollLoop Queue)
      → n ≡ 0
      → poll_types dq now ts (n, s) ≡ (n, s)
  unfolding poll_types poll_type
  poll_types_none_left now [] n s e = refl
  poll_types_none_left now (t ∷ ts) n s e =
      rw (ap (λ k. k == 0) e) (poll_types_none_left now ts n s e)

  pub tick_over_lem :
      (ts : List JobType) (now : ℕ) (s : PollLoop Queue)
      → s.active_jobs + min_free_slots ≤ max_concurrent_jobs
      → tick_over dq ts (ok now) s
        ≡ (poll_types dq now ts (min (max_concurrent_jobs - s.active_jobs) poll_batch_size, s)).1
  unfolding tick_over
  tick_over_lem ts now s free = ground arith

  -- No dequeue throws.
  module _
      (answers : (t : JobType) (now n : ℕ) (q : Queue)
        → (ids : List String) × ((dequeue t now n q).0 ≡ ok ids)) where
    poll_type-drains :
        (now : ℕ) (t : JobType) (p : ℕ × PollLoop Queue)
        → 0 < (poll_type dq now t p).0
        → IsDrained dq now (poll_type dq now t p).1.queue t
    unfolding poll_type
    poll_type-drains now t (n, s) h = elim (Bool-cases (n == 0)) [
      | inl e ↦ let h' : 0 < n = rw e at h in ground arith
      | inr e ↦
          let (ids, got) = answers t now n s.queue in
          let left : 0
              < (dispatched t n (dequeue t now n s.queue).0 (dequeue t now n s.queue).1 s).0 =
            rw e at h in
          rw (e, dispatched-queue t n (dequeue t now n s.queue).0 (dequeue t now n s.queue).1 s)
            (dequeue_drains t now n s.queue ids got (dispatched-short t n _ ids _ s got left))
    ]

    poll_types-drains :
        (now : ℕ) (ts : List JobType) (p : ℕ × PollLoop Queue)
        → 0 < (poll_types dq now ts p).0
        → All (IsDrained dq now (poll_types dq now ts p).1.queue) ts
    unfolding poll_types
    poll_types-drains now [] p h = tt
    poll_types-drains now (t ∷ ts) p h = (
      poll_types-IsDrained now ts t (poll_type dq now t p)
          (poll_type-drains now t p (omega (arith, poll_types-le now ts (poll_type dq now t p)))),
      poll_types-drains now ts (poll_type dq now t p) h,
    )

    -- For every split of the types, a tick either does what a tick over the earlier types does, so
    -- that the later ones get no slot, or it leaves nothing due of the earlier types. No dequeue
    -- throws, enough slots are free, and Redis gives the time.
    pub tick-priority :
        (earlier later : List JobType) (now : ℕ) (s : PollLoop Queue)
        → s.active_jobs + min_free_slots ≤ max_concurrent_jobs
        → (tick_over dq (earlier ++ later) (ok now) s ≡ tick_over dq earlier (ok now) s)
          ⊎ All (IsDrained dq now (tick_over dq (earlier ++ later) (ok now) s).queue) earlier
    tick-priority earlier later now s free =
        rw
          (
            tick_over_lem (earlier ++ later) now s free,
            tick_over_lem earlier now s free,
            poll_types-append now earlier later,
          )
          (elim (Bool-cases (p.0 == 0)) [
            | inl full ↦ inl (
                ap (λ (x : ℕ × PollLoop Queue). x.1)
                  (poll_types_none_left now later p.0 p.1 (ground arith)))
            | inr open_yet ↦ inr (
                All-map earlier (λ t. poll_types-IsDrained now later t p)
                  (poll_types-drains now earlier start (ground arith)))
          ])
      where
        start : ℕ × PollLoop Queue
        start = (min (max_concurrent_jobs - s.active_jobs) poll_batch_size, s)

        p : ℕ × PollLoop Queue
        p = poll_types dq now earlier start
