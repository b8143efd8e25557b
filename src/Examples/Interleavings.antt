-- ===== src/Examples/Interleavings.antt =====
-- The poll loop at a queue that always has more jobs: two ticks under way at a time, and a stop.
use hyperscale_job_scheduler.Base.{
  ℕ, zero, suc, ◌+◌, ◌-◌, ◌≤◌, ◌<◌, String, Bool, true, false, List, [], ◌∷◌, ◌++◌, length, ◌≡◌,
  refl, arith,
}
use hyperscale_job_scheduler.Exec.{ok, ok-eq}
use hyperscale_job_scheduler.Types.{
  reservation_expiry, payout_batch, order_abandonment, low_stock_alert, scheduled_report,
}
use hyperscale_job_scheduler.Types.{JobType}
use hyperscale_job_scheduler.Poll.{PollLoop, Batch, poll_order, start, stop, dispatched, settle}
use hyperscale_job_scheduler.Poll.Source.{DueQueue}
use hyperscale_job_scheduler.Poll.Interleaving.{
  Phase, waiting, polling, counting, Machine, started, named, begins, asks, counts, starts, stops,
  gates, goes, settles, Reach, here, next,
}
use hyperscale_job_scheduler.Poll.Interleaving.Safety.{IsSafe, Reach-IsSafe}
use hyperscale_job_scheduler.Poll.Interleaving.Quiet.{
  WindsDown, idle, further, Stopped, Stopped-WindsDown,
}

abbrev jobs : ℕ → List String
jobs zero = []
jobs (suc n) = "job" ∷ jobs n

length-jobs : (n : ℕ) → length (jobs n) ≡ n
length-jobs zero = refl
length-jobs (suc n) = omega (arith, length-jobs n)

jobs_bounded : (n : ℕ) (ids : List String) → ok (jobs n) ≡ ok ids → length ids ≤ n
jobs_bounded n ids e = rw (ok-eq (jobs n) ids e) (omega (arith, length-jobs n))

jobs_all : (n : ℕ) (ids : List String) → ok (jobs n) ≡ ok ids → length ids < n → ◌≡◌ {A = ℕ} 0 0
jobs_all n ids e h = refl

abbrev plenty : DueQueue
plenty = record {
  Queue = Unit {0};
  dequeue = λ t now n q. (ok (jobs n), q);
  due_count = λ now t q. 0;
  dequeue_bounded = λ t now n q. jobs_bounded n;
  dequeue_drains = λ t now n q. jobs_all n;
  dequeue_adds_none = λ t u now n q. omega arith;
}

abbrev fresh : Machine (Unit {0})
fresh = record {
  ticks = [];
  strays = 0;
  loop = record { running = false; active_jobs = 0; timer = false; queue = tt; in_flight = [] };
}

-- The loop with these jobs in flight, and with these ticks under way.
abbrev loop_with : (running timer : Bool) (batches : List Batch) → ℕ → PollLoop (Unit {0})
loop_with running timer batches active = record {
  running = running;
  active_jobs = active;
  timer = timer;
  queue = tt;
  in_flight = batches;
}

abbrev at : List Phase → PollLoop (Unit {0}) → Machine (Unit {0})
at ticks loop = record { ticks = ticks; strays = 0; loop = loop }

abbrev on : PollLoop (Unit {0})
on = loop_with true false [] 0

abbrev set : PollLoop (Unit {0})
set = loop_with true true [] 0

abbrev off : PollLoop (Unit {0})
off = loop_with false false [] 0

abbrev tick_0 : Phase
tick_0 = waiting (100 - 0)

-- A start, a tick, and a stop and a start before the tick has its time, and the next tick.
two_ticks : Reach plenty 1 fresh (at (tick_0 ∷ (tick_0 ∷ [])) on)
unfolding started start stop
two_ticks =
    let first : Reach plenty 1 fresh (at (tick_0 ∷ []) on) =
      next {n = at [] set} (next {n = fresh} here (starts (λ _. omega arith) refl))
        (gates (at [] on) (named refl refl) refl refl) in
    let again : Reach plenty 1 fresh (at (tick_0 ∷ []) set) =
      next {n = at (tick_0 ∷ []) off} (next {n = at (tick_0 ∷ []) on} first (stops refl))
        (starts (λ _. omega arith) refl) in
    next {n = at (tick_0 ∷ []) set} again (gates (at (tick_0 ∷ []) on) (named refl refl) refl refl)

abbrev later_types : List JobType
later_types = payout_batch ∷ order_abandonment ∷ low_stock_alert ∷ scheduled_report ∷ []

abbrev batch : Batch
batch = record { job_ids = jobs 100; job_type = reservation_expiry }

-- A tick that takes its first batch.
takes :
    (before after : List Phase) (batches : List Batch) (active : ℕ)
    → Reach plenty 1 fresh (at (before ++ (tick_0 ∷ after)) (loop_with true false batches active))
    → Reach plenty 1 fresh (
        at
          (before ++ (polling 50 0 later_types ∷ after))
          (loop_with true false (batch ∷ batches) (active + 100)))
unfolding dispatched
takes before after batches active r =
    let s = loop_with true false batches active in
    let a : Reach plenty 1 fresh (at (before ++ (polling 50 100 poll_order ∷ after)) s) =
      next r (goes before after tick_0 (polling 50 100 poll_order) s refl (begins 50 100) refl) in
    let b : Reach plenty 1 fresh (
        at (before ++ (counting 50 100 reservation_expiry (ok (jobs 100)) later_types ∷ after)) s) =
      next a
        (goes before after _ _ s refl (asks 50 100 reservation_expiry later_types refl) refl) in
    next b (
      goes before after _ _ _ refl (counts 50 100 reservation_expiry (ok (jobs 100)) later_types)
        refl)

-- Both ticks counted their free slots before either took a job, so 200 jobs are in flight.
abbrev overfull : Machine (Unit {0})
overfull =
    at (polling 50 0 later_types ∷ (polling 50 0 later_types ∷ []))
      (loop_with true false (batch ∷ (batch ∷ [])) 200)

overrun : Reach plenty 1 fresh overfull
overrun =
    takes (polling 50 0 later_types ∷ []) [] (batch ∷ []) 100
      (takes [] (tick_0 ∷ []) [] 0 two_ticks)

fresh-IsSafe : IsSafe 1 fresh
fresh-IsSafe = record { counted = refl; room = omega arith; few = omega arith; bounded = tt }

Reach-IsSafe_example : IsSafe 1 overfull
Reach-IsSafe_example = Reach-IsSafe plenty 1 overrun fresh-IsSafe

-- A stopped loop whose last batch settles.
abbrev stopped_full : Machine (Unit {0})
stopped_full = at [] (loop_with false false (batch ∷ []) 100)

settled_after : Stopped plenty 0 stopped_full fresh
unfolding settle
settled_after = further {n = stopped_full} idle (settles batch [] [] refl refl) refl

Stopped-WindsDown_example : WindsDown stopped_full fresh
Stopped-WindsDown_example = Stopped-WindsDown plenty 0 settled_after refl refl
