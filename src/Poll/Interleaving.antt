-- ===== src/Poll/Interleaving.antt =====
-- The loop among the other callbacks of the process: between any two awaits of a tick, a dispatch may
-- settle, the loop may be stopped and started, and another timeout may fire. The field `timer` names
-- the timeout that was set last; a timeout that it no longer names fires all the same.
pub mod Ticks
pub mod Awaits
pub mod Safety
pub mod Quiet
use hyperscale_job_scheduler.Base.{
  ℕ, suc, ◌+◌, ◌-◌, ◌≤◌, min, String, true, false, List, [], ◌∷◌, ◌++◌, length, ltb, ◌==◌,
  if◌then◌else◌, ◌≡◌,
}
use hyperscale_job_scheduler.Exec.{Result}
use hyperscale_job_scheduler.Types.{JobType}
use hyperscale_job_scheduler.Constants.{poll_batch_size, min_free_slots, max_concurrent_jobs}
use hyperscale_job_scheduler.Poll.{
  PollLoop, Batch, poll_order, dispatched, schedule_next_tick, start, stop, settle,
}
use hyperscale_job_scheduler.Poll.Source.{DueQueue}

-- Where a tick stands: waiting for the time with the free slots that it has counted, before the
-- dequeue of the first of these types with the slots that are left, or before it counts what the
-- dequeue of this type gave.
pub data Phase : Type 0 where
  waiting : ℕ → Phase
  polling : ℕ → ℕ → List JobType → Phase
  counting : ℕ → ℕ → JobType → Result (List String) → List JobType → Phase

-- The loop with its ticks under way and the number of stray timeouts, which `timer` does not name.
pub record Machine (Q : Type 0) : Type 0 where
  pub ticks : List Phase
  pub strays : ℕ
  pub loop : PollLoop Q

module _ {Q : Type 0} where
  -- What setting `timer` leaves behind.
  abbrev pub strays_after : PollLoop Q → ℕ → ℕ
  strays_after s strays = if s.timer then suc strays else strays

  -- scheduleNextTick
  unfoldable pub rearm : Machine Q → Machine Q
  unfolding schedule_next_tick
  rearm m = record m {
    strays = if m.loop.running then strays_after m.loop m.strays else m.strays;
    loop = schedule_next_tick m.loop;
  }

  unfoldable pub started : Machine Q → Machine Q
  unfolding start
  started m = record m {
    strays = if m.loop.running then m.strays else strays_after m.loop m.strays;
    loop = start m.loop;
  }

  -- The timeouts that are set and the ticks under way: each becomes the next, while the loop runs.
  abbrev pub chains : Machine Q → ℕ
  chains m = strays_after m.loop m.strays + length m.ticks

  -- A timeout that fires is set no more.
  pub data Fires (m d : Machine Q) : Type 0 where
    named :
        m.loop.timer ≡ true → d ≡ record m { loop = record m.loop { timer = false } } → Fires m d
    stray : m.strays ≡ suc d.strays → d.ticks ≡ m.ticks → d.loop ≡ m.loop → Fires m d

-- A tick that ends: Redis gave no time, no slot is left, or no type.
pub data Ends : Phase → Type 0 where
  timeless : (free : ℕ) → Ends (waiting free)
  filled : (now : ℕ) (types : List JobType) → Ends (polling now 0 types)
  polled : (now slots : ℕ) → Ends (polling now slots [])

module _ (dq : DueQueue) where
  open dq use {Queue, dequeue}

  -- A tick that goes on to its next await.
  pub data Goes (s : PollLoop Queue) : Phase → Phase → PollLoop Queue → Type 0 where
    begins :
        (now free : ℕ) → Goes s (waiting free) (polling now (min free poll_batch_size) poll_order) s
    asks :
        (now slots : ℕ) (t : JobType) (ts : List JobType)
        → (slots == 0) ≡ false
        → Goes s
            (polling now slots (t ∷ ts))
            (counting now slots t (dequeue t now slots s.queue).0 ts)
            (record s { queue = (dequeue t now slots s.queue).1 })
    counts :
        (now slots : ℕ) (t : JobType) (r : Result (List String)) (ts : List JobType)
        → Goes s
            (counting now slots t r ts)
            (polling now (dispatched t slots r s.queue s).0 ts)
            (dispatched t slots r s.queue s).1

  -- The steps of a process that starts a loop only where at most this many timeouts and ticks are left
  -- of it.
  pub data Step (others : ℕ) (m n : Machine Queue) : Type 0 where
    starts : (m.loop.running ≡ false → chains m ≤ others) → n ≡ started m → Step others m n
    stops : n ≡ record m { loop = stop m.loop } → Step others m n
    skips :
        (d : Machine Queue)
        → Fires m d
        → ltb (max_concurrent_jobs - m.loop.active_jobs) min_free_slots ≡ true
        → n ≡ rearm d
        → Step others m n
    gates :
        (d : Machine Queue)
        → Fires m d
        → ltb (max_concurrent_jobs - m.loop.active_jobs) min_free_slots ≡ false
        → n ≡ record d { ticks = waiting (max_concurrent_jobs - m.loop.active_jobs) ∷ d.ticks }
        → Step others m n
    goes :
        (before after : List Phase) (p q : Phase) (s : PollLoop Queue)
        → m.ticks ≡ before ++ (p ∷ after)
        → Goes m.loop p q s
        → n ≡ record m { ticks = before ++ (q ∷ after); loop = s }
        → Step others m n
    ends :
        (before after : List Phase) (p : Phase)
        → m.ticks ≡ before ++ (p ∷ after)
        → Ends p
        → n ≡ rearm (record m { ticks = before ++ after })
        → Step others m n
    settles :
        (b : Batch) (before after : List Batch)
        → m.loop.in_flight ≡ before ++ (b ∷ after)
        → n ≡ record m { loop = settle b (before ++ after) m.loop }
        → Step others m n

  pub data Reach (others : ℕ) (m : Machine Queue) : Machine Queue → Type 0 where
    here : Reach others m m
    next : {n o : Machine Queue} → Reach others m n → Step others n o → Reach others m o
