-- ===== src/Queue/RedisJobQueue/Peek.antt =====
-- RedisJobQueue.peek of src/domains/scheduler/redis-job-queue.ts: the next due jobs with their scores,
-- which ops tooling reads.
use hyperscale_job_scheduler.Base.{
  ℕ, ◌≤◌, ◌<◌, String, Option, none, some, List, [], ◌∷◌, map, take, All, ◌≡◌, refl, ap, ◌∙◌, arith,
  zero, suc, sym, Bool-cases, ◌⊎◌, inl, inr,
}
use hyperscale_job_scheduler.Exec.{Exec, pure, ◌>>=◌, Result, ok, err, Result-cases}
use hyperscale_job_scheduler.Types.{JobType}
use hyperscale_job_scheduler.Queue.SortedSets.{SortedSets, Entry, in_range, range, members_of}
use hyperscale_job_scheduler.Queue.RedisJobQueue.{queue_key, dequeue}
use hyperscale_job_scheduler.Queue.RedisJobQueue.Dequeue.{due, taken, dequeue_given}

-- A reply WITHSCORES: each member is followed by its score.
abbrev pub with_scores : (ℕ → String) → List Entry → List String
with_scores printed [] = []
with_scores printed (e ∷ es) = e.member ∷ printed e.score ∷ with_scores printed es

-- ZRANGEBYSCORE key lo hi WITHSCORES LIMIT offset count. Redis writes a score as a text that Number
-- reads as the same number, below the bound from which a double is no longer exact; `none` is NaN.
pub record ScoredRanges (r : SortedSets) : Type 0 where
  pub printed : ℕ → String
  pub number : String → Option ℕ
  pub zrange_with_scores : String → ℕ → ℕ → ℕ → ℕ → Exec (SortedSets.Sets r) (List String)
  pub number-printed : (n : ℕ) → n < 9007199254740992 → number (printed n) ≡ some n
  pub scores-result :
      (k : String) (lo hi offset count : ℕ) (z : SortedSets.Sets r) (reply : List String)
      → (zrange_with_scores k lo hi offset count z).0 ≡ ok reply
      → reply ≡ with_scores printed (range lo hi offset count (SortedSets.entries r z k))
  pub scores-entries :
      (k : String) (lo hi offset count : ℕ) (j : String) (z : SortedSets.Sets r)
      → SortedSets.entries r (zrange_with_scores k lo hi offset count z).1 j
        ≡ SortedSets.entries r z j

pub record PeekedJob : Type 0 where
  pub job_id : String
  pub score : Option ℕ

-- The loop over every second element; `Number(undefined)` is NaN.
abbrev items_of : (String → Option ℕ) → List String → List PeekedJob
items_of number [] = []
items_of number (id ∷ []) = record { job_id = id; score = none } ∷ []
items_of number (id ∷ score ∷ results) =
    record { job_id = id; score = number score } ∷ items_of number results

abbrev pub peeked : Entry → PeekedJob
peeked e = record { job_id = e.member; score = some e.score }

abbrev pub ids_of : List PeekedJob → List String
ids_of = map (λ p. p.job_id)

ids_of-peeked : (es : List Entry) → ids_of (map peeked es) ≡ members_of es
ids_of-peeked [] = refl
ids_of-peeked (e ∷ es) = ap (◌∷◌ e.member) (ids_of-peeked es)

due-All : (now : ℕ) (es : List Entry) → All (λ e. e.score ≤ now) (due now es)
due-All now [] = tt
due-All now (e ∷ es) = elim (Bool-cases (in_range 0 now e)) [
  | inl on ↦ rw on (ground (arith, on), due-All now es)
  | inr off ↦ rw off (due-All now es)
]

take-All {ℓ κ} : {A : Type ℓ} (P : A → Type κ) (n : ℕ) (xs : List A) → All P xs → All P (take n xs)
take-All P zero xs h = tt
take-All P (suc n) [] h = tt
take-All P (suc n) (x ∷ xs) h = (h.0, take-All P n xs h.1)

module _ (r : SortedSets) (v : ScoredRanges r) where
  open r use {Sets, entries, zrangebyscore}
  open v use {printed, number, zrange_with_scores, number-printed, scores-result, scores-entries}

  unfoldable pub peek : JobType → ℕ → ℕ → Exec Sets (List PeekedJob)
  unfolding ◌>>=◌
  peek job_type now_ms count = do
    results ← zrange_with_scores (queue_key job_type) 0 now_ms 0 count
    pure (items_of number results)

  items_of-with_scores :
      (now : ℕ) (es : List Entry)
      → now < 9007199254740992
      → All (λ e. e.score ≤ now) es
      → items_of number (with_scores printed es) ≡ map peeked es
  items_of-with_scores now [] small h = refl
  items_of-with_scores now (e ∷ es) small h =
      let small_score : e.score < 9007199254740992 = omega (arith, h.0) in
      rw (number-printed e.score small_score)
        (ap (◌∷◌ (peeked e)) (items_of-with_scores now es small h.1))

  peek-result :
      (t : JobType) (now count : ℕ) (z : Sets) (items : List PeekedJob)
      → now < 9007199254740992
      → (peek t now count z).0 ≡ ok items
      → (items ≡ map peeked (take count (due now (entries z (queue_key t)))))
        × (entries (peek t now count z).1 (queue_key t) ≡ entries z (queue_key t))
  unfolding peek
  peek-result t now count z items small e =
      elim (Result-cases (zrange_with_scores (queue_key t) 0 now 0 count z).0) [
        | inl (x, p) ↦ ground (arith, p)
        | inr (reply, p) ↦
            let es = take count (due now (entries z (queue_key t))) in
            let read = items_of-with_scores now es small (
              take-All (λ e. e.score ≤ now) count (due now (entries z (queue_key t)))
                (due-All now (entries z (queue_key t)))) in
            (
              ground (arith, p, scores-result (queue_key t) 0 now 0 count z reply, read),
              ground (arith, p, scores-entries (queue_key t) 0 now 0 count (queue_key t) z),
            )
      ]

  -- After a dequeue that returned: it handed out these jobs in this order, or its range command gave no
  -- reply and it handed out none.
  abbrev pub HandsOut :
      Result (List String) → List PeekedJob → Result (Option (List String)) → Type 0
  HandsOut (err e) items reply = Unit {0}
  HandsOut (ok ids) items reply = (ids ≡ ids_of items) ⊎ ((ids ≡ []) × (reply ≡ ok none))

  -- A peek for a time below 2 ^ 53 ms that returned gives the earliest due jobs with exactly their
  -- scores and leaves the queue as it is; and a dequeue for the same time and count that follows it
  -- either throws, or hands out exactly these jobs in this order, or got no reply from its range command
  -- and hands out none.
  pub peek_then_dequeue :
      (t : JobType) (now count : ℕ) (z : Sets) (items : List PeekedJob)
      → now < 9007199254740992
      → (peek t now count z).0 ≡ ok items
      → (items ≡ map peeked (take count (due now (entries z (queue_key t)))))
        × (entries (peek t now count z).1 (queue_key t) ≡ entries z (queue_key t))
        × HandsOut
            (dequeue r t now count (peek t now count z).1).0
            items
            (zrangebyscore (queue_key t) 0 now 0 count (peek t now count z).1).0
  peek_then_dequeue t now count z items small e =
      let (next, same) = peek-result t now count z items small e in
      let z' = (peek t now count z).1 in
      (
        next,
        same,
        elim (Result-cases (dequeue r t now count z').0) [
          | inl (x, p) ↦ rw p tt
          | inr (ids, p) ↦ elim (dequeue_given r t now count z' ids p) [
            | inl got ↦ rw p (
                inl (
                  rw next (
                    got
                    ∙ ap (taken now count) same
                    ∙ sym (ids_of-peeked (take count (due now (entries z (queue_key t))))))))
            | inr lost ↦ rw p (inr lost)
          ]
        ],
      )
