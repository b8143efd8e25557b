-- ===== src/Election/Takeover.antt =====
-- The tick of a follower, whatever Redis and the lock service answer: LeaderElectionService.watchTick of
-- src/domains/election/leader-election.ts.
use hyperscale_job_scheduler.Base.{
  ℕ, Bool, ◌+◌, ◌≤◌, ◌<◌, String, true, false, Option, none, some, ◌≡◌, ◌≢◌, ◌⊎◌,
}
use hyperscale_job_scheduler.Exec.{Message, Result, ok, err}
use hyperscale_job_scheduler.Constants.{heartbeat_stale_threshold_ms}
use hyperscale_job_scheduler.Election.{Environment, Node, leader, follower}
use hyperscale_job_scheduler.Poll

module _ (v : Environment) where
  -- No heartbeat, or one of a time that is more than HEARTBEAT_STALE_THRESHOLD_MS ago.
  abbrev pub IsStale : Option String → ℕ → Type 0
  IsStale none now = Unit {0}
  IsStale (some text) now =
      (text ≡ "")
      ⊎ ((stamp : ℕ) × (v.parse_int text ≡ some stamp)
          × (stamp + heartbeat_stale_threshold_ms < now))

  -- A heartbeat of a time that is at most as long ago, or of no time at all.
  abbrev pub IsFresh : Option String → ℕ → Type 0
  IsFresh none now = ⊥
  IsFresh (some text) now =
      (text ≢ "")
      × ((v.parse_int text ≡ none)
          ⊎ ((stamp : ℕ) × (v.parse_int text ≡ some stamp)
              × (now ≤ stamp + heartbeat_stale_threshold_ms)))

  -- A follower as before, with its watch timer set or not.
  pub record Stays (n n' : Node v) (watches : Bool) : Type 0 where
    pub state : n'.state ≡ follower
    pub lock : n'.lock ≡ n.lock
    pub loop : n'.poll_loop ≡ n.poll_loop
    pub watch : n'.watch_timer ≡ watches

  -- A leader that holds this lock, polls or not, and watches or not.
  pub record Leads (n' : Node v) (lock : v.locks.Lock) (polls watches : Bool) : Type 0 where
    pub state : n'.state ≡ leader
    pub held : n'.lock ≡ some lock
    pub running : n'.poll_loop.running ≡ polls
    pub timer : n'.poll_loop.timer ≡ polls
    pub watch : n'.watch_timer ≡ watches

  -- What Redis has for the heartbeat, and the time at which it is judged.
  pub record Heard (n : Node v) (value : Option String) (now : ℕ) : Type 0 where
    pub got : (v.keys.get "scheduler:leader:heartbeat" n.keys).0 ≡ ok value
    pub read : (v.clock.date_now n.time).0 ≡ ok now

  pub data Outcome (n n' : Node v) : Result (Unit {0}) → Type 0 where
    unheard :
        (e : Message)
        → (v.keys.get "scheduler:leader:heartbeat" n.keys).0 ≡ err e
        → n'.net ≡ n.net
        → Stays n n' false
        → Outcome n n' (err e)
    fresh :
        (value : Option String) (now : ℕ)
        → Heard n value now
        → IsFresh value now
        → n'.net ≡ n.net
        → Stays n n' true
        → Outcome n n' (ok tt)
    refused :
        (value : Option String) (now : ℕ) (e : Message)
        → Heard n value now
        → IsStale value now
        → (v.locks.acquire_lock n.net).0 ≡ err e
        → Stays n n' true
        → Outcome n n' (ok tt)
    promoted :
        (value : Option String) (now : ℕ) (lock : v.locks.Lock)
        → Heard n value now
        → IsStale value now
        → (v.locks.acquire_lock n.net).0 ≡ ok lock
        → Leads n' lock true true
        → Outcome n n' (ok tt)
    silenced :
        (value : Option String) (now : ℕ) (lock : v.locks.Lock) (e : Message)
        → Heard n value now
        → IsStale value now
        → (v.locks.acquire_lock n.net).0 ≡ ok lock
        → Leads n' lock false false
        → Outcome n n' (err e)
