-- ===== src/Queue/RedisJobQueue/Reschedule.antt =====
-- Adding to a queue, twice or after a dequeue: enqueue, remove and reschedule of
-- src/domains/scheduler/redis-job-queue.ts.
use hyperscale_job_scheduler.Base.{
  ℕ, String, Bool, true, false, List, [], ◌∷◌, ◌++◌, includes, ◌==◌, ◌≡◌, inl, inr, arith, eq_refl,
}
use hyperscale_job_scheduler.Exec.{ok, Result-cases}
use hyperscale_job_scheduler.Types.{JobType}
use hyperscale_job_scheduler.Queue.SortedSets.{SortedSets, Entry, nx, xx, has, Added, added_count}
use hyperscale_job_scheduler.Queue.RedisJobQueue.{queue_key, enqueue, dequeue, remove, reschedule}
use hyperscale_job_scheduler.Queue.RedisJobQueue.Dequeue.{has-without, dequeue-result}

abbrev entry : String → ℕ → Entry
entry i s = record { member = i; score = s }

has-middle : (e : Entry) (before after : List Entry) → has e.member (before ++ (e ∷ after)) ≡ true
has-middle e [] after = rw (eq_refl e.member)
has-middle e (x ∷ before) after = ground (arith, has-middle e before after)

Added-has :
    (i : String) (s : ℕ) (old new : List Entry) → Added nx (entry i s) old new → has i new ≡ true
Added-has i s old new (inl (h, e)) = rw e h
Added-has i s old new (inr (h, ins)) = rw ins.joined (has-middle (entry i s) ins.before ins.after)

module _ (r : SortedSets) where
  open r use {Sets, entries, zadd, zrem, zadd-result, zrem-result, zcard-result, zcount-result}

  enqueue-Added :
      (t : JobType) (i : String) (s : ℕ) (z : Sets) (b : Bool)
      → (enqueue r t i s z).0 ≡ ok b
      → (b ≡ (added_count nx (entry i s) (entries z (queue_key t)) == 1))
        × Added nx
            (entry i s)
            (entries z (queue_key t))
            (entries (enqueue r t i s z).1 (queue_key t))
  unfolding enqueue
  enqueue-Added t i s z b e = elim (Result-cases (zadd (queue_key t) nx s i z).0) [
    | inl (x, p) ↦ ground (arith, p)
    | inr (n, p) ↦
        let (counted, added) = zadd-result (queue_key t) nx s i z n p in
        let state : (enqueue r t i s z).1 ≡ (zadd (queue_key t) nx s i z).1 = ground (arith, p) in
        (ground (arith, p, counted), rw state added)
  ]

  pub enqueue-has :
      (t : JobType) (i : String) (s : ℕ) (z : Sets) (b : Bool)
      → (enqueue r t i s z).0 ≡ ok b
      → has i (entries (enqueue r t i s z).1 (queue_key t)) ≡ true
  enqueue-has t i s z b e = Added-has i s _ _ (enqueue-Added t i s z b e).1

  reschedule-Added :
      (t : JobType) (i : String) (s : ℕ) (z : Sets) (b : Bool)
      → (reschedule r t i s z).0 ≡ ok b
      → (b ≡ false)
        × Added xx
            (entry i s)
            (entries z (queue_key t))
            (entries (reschedule r t i s z).1 (queue_key t))
  unfolding reschedule
  reschedule-Added t i s z b e = elim (Result-cases (zadd (queue_key t) xx s i z).0) [
    | inl (x, p) ↦ ground (arith, p)
    | inr (n, p) ↦
        let (counted, added) = zadd-result (queue_key t) xx s i z n p in
        let state : (reschedule r t i s z).1 ≡ (zadd (queue_key t) xx s i z).1 =
          ground (arith, p) in
        (ground (arith, p, counted), rw state added)
  ]

  -- A job is queued once: after an enqueue that returned, the job is in the queue, and a second
  -- enqueue of it, whatever its time, returns false and leaves the queue as it is.
  enqueue_twice :
      (t : JobType) (i : String) (s s' : ℕ) (z : Sets) (b b' : Bool)
      → (enqueue r t i s z).0 ≡ ok b
      → (enqueue r t i s' (enqueue r t i s z).1).0 ≡ ok b'
      → (has i (entries (enqueue r t i s z).1 (queue_key t)) ≡ true)
        × (b' ≡ false)
        × (entries (enqueue r t i s' (enqueue r t i s z).1).1 (queue_key t)
            ≡ entries (enqueue r t i s z).1 (queue_key t))
  enqueue_twice t i s s' z b b' first second =
      let (_, done) = enqueue-Added t i s z b first in
      let (count, again) = enqueue-Added t i s' (enqueue r t i s z).1 b' second in
      let there = Added-has i s _ _ done in
      (
        there,
        ground (arith, count, there),
        elim again [ inl (_, same) ↦ same | inr (absent, _) ↦ cc ],
      )

  -- A job that a dequeue handed out is not put back by a reschedule: the call returns false and the
  -- queue stays without the job.
  pub reschedule_after_dequeue :
      (t : JobType) (now count s : ℕ) (z : Sets) (ids : List String) (i : String) (b : Bool)
      → (dequeue r t now count z).0 ≡ ok ids
      → includes ids i ≡ true
      → (reschedule r t i s (dequeue r t now count z).1).0 ≡ ok b
      → (b ≡ false)
        × (entries (reschedule r t i s (dequeue r t now count z).1).1 (queue_key t)
            ≡ entries (dequeue r t now count z).1 (queue_key t))
        × (has i (entries (reschedule r t i s (dequeue r t now count z).1).1 (queue_key t)) ≡ false)
  reschedule_after_dequeue t now count s z ids i b e member again =
      let left = (dequeue-result r t now count z ids e).1 in
      let (flag, added) = reschedule-Added t i s (dequeue r t now count z).1 b again in
      let absent : has i (entries (dequeue r t now count z).1 (queue_key t)) ≡ false =
        rw left (has-without ids i (entries z (queue_key t)) member) in
      elim added [ inl (_, same) ↦ (flag, same, rw same absent) | inr (present, _) ↦ cc ]

  -- A removed job is gone from its queue, whether or not it was there.
  pub remove_lem :
      (t : JobType) (i : String) (z : Sets) (b : Bool)
      → (remove r t i z).0 ≡ ok b
      → has i (entries (remove r t i z).1 (queue_key t)) ≡ false
  unfolding remove
  remove_lem t i z b e = elim (Result-cases (zrem (queue_key t) (i ∷ []) z).0) [
    | inl (x, p) ↦ ground (arith, p)
    | inr (n, p) ↦
        let state : (remove r t i z).1 ≡ (zrem (queue_key t) (i ∷ []) z).1 = ground (arith, p) in
        rw (state, zrem-result (queue_key t) (i ∷ []) z n p)
          (has-without (i ∷ []) i (entries z (queue_key t)) (rw (eq_refl i)))
  ]
