-- ===== src/Examples/Peeks.antt =====
-- A peek at the queue of three jobs, over sorted sets in memory that write a score in tally marks.
use hyperscale_job_scheduler.Base.{
  ℕ, zero, suc, String, Option, none, some, List, [], ◌∷◌, ◌≡◌, refl, map, take, arith,
}
use hyperscale_job_scheduler.Exec.{ok, ok-eq}
use hyperscale_job_scheduler.Types.{payout_batch}
use hyperscale_job_scheduler.Queue.SortedSets.{range}
use hyperscale_job_scheduler.Queue.RedisJobQueue.{queue_key, dequeue}
use hyperscale_job_scheduler.Queue.RedisJobQueue.Dequeue.{due}
use hyperscale_job_scheduler.Queue.RedisJobQueue.Peek.{
  with_scores, ScoredRanges, PeekedJob, peek, peeked, HandsOut, peek_then_dequeue,
}
use hyperscale_job_scheduler.Examples.MemorySets.{memory_sets}
use hyperscale_job_scheduler.Examples.Queues.{queued}

abbrev tally : ℕ → String
tally zero = ""
tally (suc n) = String.◌∷◌ "x" (tally n)

abbrev count_tally : String → Option ℕ
count_tally String.[] = some 0
count_tally (String.◌∷◌ c s) = elim (count_tally s) [ none ↦ none | some n ↦ some (suc n) ]

count-tally : (n : ℕ) → count_tally (tally n) ≡ some n
count-tally zero = refl
count-tally (suc n) = rw (count-tally n) refl

abbrev memory_ranges : ScoredRanges memory_sets
memory_ranges = record {
  printed = tally;
  number = count_tally;
  zrange_with_scores =
      λ k lo hi offset count z. (ok (with_scores tally (range lo hi offset count (z k))), z);
  number-printed = λ n small. count-tally n;
  scores-result = λ k lo hi offset count z reply p. ok-eq _ _ p;
  scores-entries = λ k lo hi offset count j z. refl;
}

abbrev next_two : List PeekedJob
next_two = record { job_id = "a"; score = some 10 } ∷ record { job_id = "b"; score = some 20 } ∷ []

peek_answers : (peek memory_sets memory_ranges payout_batch 50 10 queued).0 ≡ ok next_two
unfolding peek
peek_answers = refl

peek_then_dequeue_example :
    (next_two ≡ map peeked (take 10 (due 50 (queued (queue_key payout_batch)))))
    × ((peek memory_sets memory_ranges payout_batch 50 10 queued).1 (queue_key payout_batch)
        ≡ queued (queue_key payout_batch))
    × HandsOut memory_sets memory_ranges
        (dequeue memory_sets payout_batch 50 10
          (peek memory_sets memory_ranges payout_batch 50 10 queued).1).0
        next_two
        (memory_sets.zrangebyscore
          (queue_key payout_batch)
          0
          50
          0
          10
          (peek memory_sets memory_ranges payout_batch 50 10 queued).1).0
peek_then_dequeue_example =
    peek_then_dequeue memory_sets memory_ranges payout_batch 50 10 queued next_two (omega arith)
      peek_answers
