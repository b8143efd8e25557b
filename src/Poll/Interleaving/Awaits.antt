-- ===== src/Poll/Interleaving/Awaits.antt =====
-- A tick between two awaits.
use hyperscale_job_scheduler.Base.{ℕ, ◌+◌, ◌≤◌, List, [], ◌∷◌, ◌≡◌, refl, arith, String}
use hyperscale_job_scheduler.Exec.{Result, ok, err}
use hyperscale_job_scheduler.Types.{JobType}
use hyperscale_job_scheduler.Poll.{PollLoop, dispatched}
use hyperscale_job_scheduler.Poll.Source.{DueQueue}
use hyperscale_job_scheduler.Poll.Capacity.{jobs_in, HasRoom, dispatched-HasRoom}
use hyperscale_job_scheduler.Poll.Interleaving.{Phase, Goes, begins, asks, counts}
use hyperscale_job_scheduler.Poll.Interleaving.Ticks.{open_slots, IsBounded}

dispatched_slots :
    {Q : Type 0} (t : JobType) (n : ℕ) (r : Result (List String)) (q : Q) (s : PollLoop Q)
    → (dispatched t n r q s).0 ≤ n
unfolding dispatched
dispatched_slots t n (err e) q s = omega arith
dispatched_slots t n (ok []) q s = omega arith
dispatched_slots t n (ok (i ∷ ids)) q s = omega arith

pub dispatched_timer :
    {Q : Type 0} (t : JobType) (n : ℕ) (r : Result (List String)) (q : Q) (s : PollLoop Q)
    → (dispatched t n r q s).1.timer ≡ s.timer
unfolding dispatched
dispatched_timer t n (err e) q s = refl
dispatched_timer t n (ok []) q s = refl
dispatched_timer t n (ok (i ∷ ids)) q s = refl

-- What a tick that goes on keeps, with the slots that it may still fill.
pub record Steady {Q : Type 0} (s : PollLoop Q) (p q : Phase) (s' : PollLoop Q) : Type 0 where
  pub counted' : s'.active_jobs ≡ jobs_in s'.in_flight
  pub room' : s'.active_jobs + open_slots q ≤ s.active_jobs + open_slots p
  pub bounded' : IsBounded q
  pub timer' : s'.timer ≡ s.timer

module _ (dq : DueQueue) where
  open dq use {Queue, dequeue, dequeue_bounded}

  pub Goes-Steady :
      {s s' : PollLoop Queue} {p q : Phase}
      → Goes dq s p q s'
      → s.active_jobs ≡ jobs_in s.in_flight
      → IsBounded p
      → Steady s p q s'
  Goes-Steady (begins now free) c b = record {
    counted' = c;
    room' = omega arith;
    bounded' = b;
    timer' = refl;
  }
  Goes-Steady {s} (asks now slots t ts some_left) c b = record {
    counted' = c;
    room' = omega arith;
    bounded' = (b, λ ids. dequeue_bounded t now slots s.queue ids);
    timer' = refl;
  }
  Goes-Steady {s} (counts now slots t r ts) c b =
      let h : HasRoom (s.active_jobs + slots) (dispatched t slots r s.queue s).0
          (dispatched t slots r s.queue s).1 =
        dispatched-HasRoom (s.active_jobs + slots) t slots r s.queue s b.1
          (record { counted = c; room = omega arith }) in
      record {
        counted' = h.counted;
        room' = h.room;
        bounded' = omega (arith, dispatched_slots t slots r s.queue s, b.0);
        timer' = dispatched_timer t slots r s.queue s;
      }
