-- ===== src/Election/Timing.antt =====
-- The timer of the poll loop: the callbacks of the process set it only while the loop runs.
use hyperscale_job_scheduler.Base.{
  ℕ, Bool, true, false, Option, none, some, List, [], ◌∷◌, String, ◌≡◌, refl, ◌⊎◌, inl, inr,
  Bool-cases, ◌-◌, ltb, ◌==◌,
}
use hyperscale_job_scheduler.Exec.{Exec, Result, ok, err}
use hyperscale_job_scheduler.Exec.Keeps.{Keeps, keeping}
use hyperscale_job_scheduler.Types.{JobType}
use hyperscale_job_scheduler.Poll.{
  PollLoop, Batch, schedule_next_tick, start, settle, dispatched, poll_type, poll_types, tick_over,
  tick, fire, poll_order,
}
use hyperscale_job_scheduler.Poll
use hyperscale_job_scheduler.Constants.{max_concurrent_jobs, min_free_slots}
use hyperscale_job_scheduler.Poll.Source.{DueQueue}
use hyperscale_job_scheduler.Election.{
  Environment, Node, LeaderState, is_leader, watch_tick, follow, is_heartbeat_stale, campaign,
  acquire, promote, write_heartbeat, on_promoted, on_demoted, schedule_watch, lead, extend,
  extend_held, demote, release, release_held, on_net, on_keys, on_clock, set_lock, set_state, stop,
}

-- The timer is set only while the loop runs.
abbrev pub IsArmed : {Q : Type 0} → PollLoop Q → Type 0
IsArmed p = (p.running ≡ true) ⊎ (p.timer ≡ false)

module _ {Q : Type 0} where
  start-IsArmed : (p : PollLoop Q) → IsArmed p → IsArmed (Poll.start p)
  unfolding Poll.start
  start-IsArmed p h = elim (Bool-cases p.running) [
    | inl runs ↦ rw runs (inl refl)
    | inr idle ↦ rw idle (inl refl)
  ]

  next_tick-IsArmed : (p : PollLoop Q) → p.timer ≡ false → IsArmed (schedule_next_tick p)
  unfolding schedule_next_tick
  next_tick-IsArmed p h = elim (Bool-cases p.running) [
    | inl runs ↦ rw runs (inl refl)
    | inr idle ↦ rw idle (inr h)
  ]

  settle-IsArmed :
      (b : Batch) (others : List Batch) (p : PollLoop Q) → IsArmed p → IsArmed (settle b others p)
  unfolding settle
  settle-IsArmed b others p h = h

  -- The two fields.
  IsAt : Bool → Bool → PollLoop Q → Type 0
  IsAt runs timed p = (p.running ≡ runs) × (p.timer ≡ timed)

module _ (dq : DueQueue) (runs timed : Bool) where
  open dq use {Queue, dequeue}

  dispatched-IsAt :
      (t : JobType) (n : ℕ) (r : Result (List String)) (q : Queue) (p : PollLoop Queue)
      → IsAt runs timed p
      → IsAt runs timed (dispatched t n r q p).1
  unfolding dispatched IsAt
  dispatched-IsAt t n (err e) q p h = h
  dispatched-IsAt t n (ok []) q p h = h
  dispatched-IsAt t n (ok (i ∷ is)) q p h = h

  poll_type-IsAt :
      (now : ℕ) (t : JobType) (n : ℕ) (p : PollLoop Queue)
      → IsAt runs timed p
      → IsAt runs timed (poll_type dq now t (n, p)).1
  unfolding poll_type
  poll_type-IsAt now t n p h = elim (Bool-cases (n == 0)) [
    | inl full ↦ rw full h
    | inr room ↦
        rw room (dispatched-IsAt t n (dequeue t now n p.queue).0 (dequeue t now n p.queue).1 p h)
  ]

  poll_types-IsAt :
      (now : ℕ) (ts : List JobType) (n : ℕ) (p : PollLoop Queue)
      → IsAt runs timed p
      → IsAt runs timed (poll_types dq now ts (n, p)).1
  unfolding poll_types
  poll_types-IsAt now [] n p h = h
  poll_types-IsAt now (t ∷ ts) n p h =
      let (m, q) = poll_type dq now t (n, p) in
      poll_types-IsAt now ts m q (poll_type-IsAt now t n p h)

  tick_over-IsAt :
      (ts : List JobType) (time : Result ℕ) (p : PollLoop Queue)
      → IsAt runs timed p
      → IsAt runs timed (tick_over dq ts time p)
  unfolding tick_over
  tick_over-IsAt ts (err e) p h =
      elim (Bool-cases (ltb (max_concurrent_jobs - p.active_jobs) min_free_slots)) [
        | inl full ↦ rw full h
        | inr room ↦ rw room h
      ]
  tick_over-IsAt ts (ok now) p h =
      elim (Bool-cases (ltb (max_concurrent_jobs - p.active_jobs) min_free_slots)) [
        | inl full ↦ rw full h
        | inr room ↦ rw room (poll_types-IsAt now ts _ p h)
      ]

module _ (dq : DueQueue) where
  -- A callback of the poll timer.
  fire-IsArmed : (time : Result ℕ) (p : PollLoop dq.Queue) → IsArmed (fire dq time p)
  unfolding fire tick IsAt
  fire-IsArmed time p =
      let (_, timed) =
        tick_over-IsAt dq p.running false poll_order time (record p { timer = false })
          (refl, refl) in
      next_tick-IsArmed (tick dq time (record p { timer = false })) timed

module _ (v : Environment) where
  abbrev pub IsTimed : Node v → Type 0
  IsTimed n = IsArmed n.poll_loop

  on_net-IsTimed : {A : Type 0} (m : Exec v.locks.Net A) → Keeps IsTimed (on_net v m)
  on_net-IsTimed m = record { holds = λ n h. h }

  on_keys-IsTimed : {A : Type 0} (m : Exec v.keys.Keys A) → Keeps IsTimed (on_keys v m)
  on_keys-IsTimed m = record { holds = λ n h. h }

  on_clock-IsTimed : {A : Type 0} (m : Exec v.clock.Time A) → Keeps IsTimed (on_clock v m)
  on_clock-IsTimed m = record { holds = λ n h. h }

  set_lock-IsTimed : (l : Option v.locks.Lock) → Keeps IsTimed (set_lock v l)
  set_lock-IsTimed l = record { holds = λ n h. h }

  set_state-IsTimed : (st : LeaderState) → Keeps IsTimed (set_state v st)
  set_state-IsTimed st = record { holds = λ n h. h }

  on_promoted-IsTimed : Keeps IsTimed (on_promoted v)
  unfolding on_promoted
  on_promoted-IsTimed = record { holds = λ n h. start-IsArmed n.poll_loop h }

  on_demoted-IsTimed : Keeps IsTimed (on_demoted v)
  unfolding on_demoted Poll.stop
  on_demoted-IsTimed = record { holds = λ n h. inr refl }

  schedule_watch-IsTimed : Keeps IsTimed (schedule_watch v)
  unfolding schedule_watch
  schedule_watch-IsTimed = record { holds = λ n h. h }

  ruleset timing = (
    on_net-IsTimed, on_keys-IsTimed, on_clock-IsTimed, set_lock-IsTimed, set_state-IsTimed,
    on_promoted-IsTimed, on_demoted-IsTimed, schedule_watch-IsTimed, keeping,
  )

  release_held-IsTimed : (l : Option v.locks.Lock) → Keeps IsTimed (release_held v l)
  unfolding release_held
  release_held-IsTimed none = search timing
  release_held-IsTimed (some lock) = search timing

  release-IsTimed : Keeps IsTimed (release v)
  unfolding release
  release-IsTimed = record { holds = λ n h. (release_held-IsTimed n.lock).holds n h }

  demote-IsTimed : Keeps IsTimed (demote v)
  unfolding demote
  demote-IsTimed = search (timing, release-IsTimed)

  extend_held-IsTimed : (l : Option v.locks.Lock) → Keeps IsTimed (extend_held v l)
  unfolding extend_held
  extend_held-IsTimed none = search timing
  extend_held-IsTimed (some lock) = search timing

  extend-IsTimed : Keeps IsTimed (extend v)
  unfolding extend
  extend-IsTimed = record { holds = λ n h. (extend_held-IsTimed n.lock).holds n h }

  write_heartbeat-IsTimed : Keeps IsTimed (write_heartbeat v)
  unfolding write_heartbeat
  write_heartbeat-IsTimed = search timing

  lead-IsTimed : Keeps IsTimed (lead v)
  unfolding lead
  lead-IsTimed = search (timing, extend-IsTimed, demote-IsTimed, write_heartbeat-IsTimed)

  campaign-IsTimed : (b : Bool) → Keeps IsTimed (campaign v b)
  unfolding campaign acquire promote
  campaign-IsTimed true = search (timing, write_heartbeat-IsTimed) depth 12
  campaign-IsTimed false = search timing

  follow-IsTimed : Keeps IsTimed (follow v)
  unfolding follow is_heartbeat_stale
  follow-IsTimed = search (timing, campaign-IsTimed) depth 12

  -- A callback of the watch timer, and a stop.
  pub watch_tick-IsTimed : (n : Node v) → IsTimed n → IsTimed (watch_tick v n).1
  unfolding watch_tick
  watch_tick-IsTimed n h = elim (Bool-cases (is_leader n.state)) [
    | inl e ↦ rw e (lead-IsTimed.holds (record n { watch_timer = false }) h)
    | inr e ↦ rw e (follow-IsTimed.holds (record n { watch_timer = false }) h)
  ]

  pub stop-IsTimed : (n : Node v) → IsTimed n → IsTimed (stop v n).1
  unfolding stop
  stop-IsTimed n h = elim (Bool-cases (is_leader n.state)) [
    | inl e ↦ rw e (demote-IsTimed.holds (record n { watch_timer = false }) h)
    | inr e ↦ rw e h
  ]
