-- ===== src/Queue/RedisJobQueue/Batches.antt =====
-- What the caller of `dequeue` may rely on: batches are bounded, due, gone from the queue, and
-- complete when they are short.
use hyperscale_job_scheduler.Base.{
  ℕ, zero, suc, ◌≤◌, ◌<◌, String, true, false, none, List, [], ◌∷◌, take, includes, length, All,
  ◌≡◌, ap, ◌∙◌, inl, inr, arith, eq_refl, ◌≢◌, All-map, length-map,
}
use hyperscale_job_scheduler.Exec.{ok}
use hyperscale_job_scheduler.Types.{JobType}
use hyperscale_job_scheduler.Queue.SortedSets.{SortedSets, Entry, members_of, without, has}
use hyperscale_job_scheduler.Queue.RedisJobQueue.{queue_key, dequeue}
use hyperscale_job_scheduler.Queue.RedisJobQueue.Dequeue.{
  due, taken, has-without, due-without, includes_self, take_all, length-taken, dequeue-result,
  dequeue_replied,
}

includes_cons :
    (i j : String) (ids : List String) → includes ids j ≡ true → includes (i ∷ ids) j ≡ true
includes_cons i j ids h = ground arith

All-includes_self : (ids : List String) → All (λ i. includes ids i ≡ true) ids
All-includes_self [] = tt
All-includes_self (i ∷ ids) =
    (rw (eq_refl i), All-map ids (λ j. includes_cons i j ids) (All-includes_self ids))

All-has-take : (n : ℕ) (es : List Entry) → All (λ i. has i es ≡ true) (members_of (take n es))
All-has-take zero es = tt
All-has-take (suc n) [] = tt
All-has-take (suc n) (e ∷ es) = (
  rw (eq_refl e.member),
  All-map (members_of (take n es)) (λ j. includes_cons e.member j (members_of es))
      (All-has-take n es),
)

module _ (r : SortedSets) where
  open r use {Sets, entries, zrangebyscore}

  -- A batch holds at most `count` members, each of them had an entry that was due, and none of them
  -- is in the queue afterwards.
  pub dequeue_batch :
      (t : JobType) (now count : ℕ) (z : Sets) (ids : List String)
      → (dequeue r t now count z).0 ≡ ok ids
      → (length ids ≤ count)
        × All (λ i. has i (due now (entries z (queue_key t))) ≡ true) ids
        × All (λ i. has i (entries (dequeue r t now count z).1 (queue_key t)) ≡ false) ids
  dequeue_batch t now count z ids e =
      let (got, left) = dequeue-result r t now count z ids e in
      let gone : All (λ i. has i (without ids (entries z (queue_key t))) ≡ false) ids =
        All-map ids (λ i. has-without ids i (entries z (queue_key t))) (All-includes_self ids) in
      elim got [
        | inl some_ids ↦ (
          rw some_ids (length-taken now count (entries z (queue_key t))),
          rw some_ids (All-has-take count (due now (entries z (queue_key t)))),
          rw left gone,
        )
        | inr none_ids ↦ (rw none_ids (omega arith), rw none_ids tt, rw left gone)
      ]

  module _
      (replies : (k : String) (lo hi offset count : ℕ) (z : Sets)
        → (zrangebyscore k lo hi offset count z).0 ≢ ok none) where
    -- Where the first command always replies, a batch that is shorter than `count` has emptied the
    -- queue of what was due.
    pub dequeue_drains :
        (t : JobType) (now count : ℕ) (z : Sets) (ids : List String)
        → (dequeue r t now count z).0 ≡ ok ids
        → length ids < count
        → due now (entries (dequeue r t now count z).1 (queue_key t)) ≡ []
    dequeue_drains t now count z ids e short =
        rw (dequeue-result r t now count z ids e).1
          (rw all (due-without now (members_of (due now es)) es (includes_self (due now es))))
      where
        es : List Entry
        es = entries z (queue_key t)

        some_ids : ids ≡ taken now count es
        some_ids = dequeue_replied r replies t now count z ids e

        room : length (take count (due now es)) < count
        room = omega (
          arith,
          ap (length {0}) some_ids,
          length-map {0, 0} (λ (x : Entry). x.member) (take count (due now es)),
        )

        all : ids ≡ members_of (due now es)
        all = some_ids ∙ ap members_of (take_all count (due now es) room)
