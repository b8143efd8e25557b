-- ===== src/Election.antt =====
-- Leader election: RedlockElection of src/domains/election/redlock.ts and LeaderElectionService of
-- src/domains/election/leader-election.ts, with the callbacks that src/bootStrap.ts gives it, which
-- start and stop the poll loop. Log lines are left out. The lock service is a parameter.
pub mod Leadership
pub mod Takeover
pub mod Watching
pub mod Interrupted
pub mod Timing
pub mod Leases
pub mod Instances
pub mod Soundness
pub mod Rivals
use hyperscale_job_scheduler.Base.{
  ℕ, ◌+◌, ◌-◌, String, Bool, true, false, Option, none, some, ltb, str_eq, if◌then◌else◌,
}
use hyperscale_job_scheduler.Exec.{Exec, Result, ok, err, pure, try_catch, ◌>>=◌, ◌>>◌}
use hyperscale_job_scheduler.Constants.{heartbeat_stale_threshold_ms}
use hyperscale_job_scheduler.Services.Runtime.{KeyStore, Clock}
use hyperscale_job_scheduler.Poll.{PollLoop}
use hyperscale_job_scheduler.Poll

pub data LeaderState : Type 0 where
  leader follower candidate : LeaderState

-- The redlock client, for the key LEADER_LOCK_KEY and the time LEADER_LOCK_TTL_MS.
pub record LockService : Type 1 where
  pub Net : Type 0
  pub Lock : Type 0
  pub acquire_lock : Exec Net Lock
  pub extend_lock : Lock → Exec Net Lock
  pub release_lock : Lock → Exec Net (Unit {0})

-- What an instance of the election calls.
pub record Environment : Type 1 where
  pub locks : LockService
  pub keys : KeyStore
  pub clock : Clock
  -- Date.now().toString() and parseInt(value, 10), which may be NaN.
  pub to_text : ℕ → String
  pub parse_int : String → Option ℕ
  -- The queue behind the poll loop.
  pub Queue : Type 0

pub record Node (v : Environment) : Type 0 where
  pub state : LeaderState
  pub lock : Option v.locks.Lock
  pub watch_timer : Bool
  pub poll_loop : PollLoop v.Queue
  pub net : v.locks.Net
  pub keys : v.keys.Keys
  pub time : v.clock.Time

abbrev pub is_leader : LeaderState → Bool
is_leader leader = true
is_leader _ = false

module _ (v : Environment) where
  abbrev pub on_net : {A : Type 0} → Exec v.locks.Net A → Exec (Node v) A
  on_net m n = let (r, x) = m n.net in (r, record n { net = x })

  abbrev pub on_keys : {A : Type 0} → Exec v.keys.Keys A → Exec (Node v) A
  on_keys m n = let (r, x) = m n.keys in (r, record n { keys = x })

  abbrev pub on_clock : {A : Type 0} → Exec v.clock.Time A → Exec (Node v) A
  on_clock m n = let (r, x) = m n.time in (r, record n { time = x })

  abbrev pub set_lock : Option v.locks.Lock → Exec (Node v) (Unit {0})
  set_lock l n = (ok tt, record n { lock = l })

  abbrev pub set_state : LeaderState → Exec (Node v) (Unit {0})
  set_state st n = (ok tt, record n { state = st })

  -- RedlockElection.acquire
  unfoldable pub acquire : Exec (Node v) Bool
  unfolding ◌>>=◌ try_catch
  acquire =
      try_catch (do lock ← on_net v.locks.acquire_lock; set_lock (some lock); pure true)
        (λ _. pure false)

  -- RedlockElection.extend
  unfoldable pub extend_held : Option v.locks.Lock → Exec (Node v) Bool
  unfolding ◌>>=◌ try_catch
  extend_held none = pure false
  extend_held (some lock) =
      try_catch
        (do extended ← on_net (v.locks.extend_lock lock); set_lock (some extended); pure true)
        (λ _. do set_lock none; pure false)

  unfoldable pub extend : Exec (Node v) Bool
  unfolding extend_held
  extend n = extend_held n.lock n

  -- RedlockElection.release
  unfoldable pub release_held : Option v.locks.Lock → Exec (Node v) (Unit {0})
  unfolding ◌>>=◌ try_catch
  release_held none = pure tt
  release_held (some lock) = do
    try_catch (on_net (v.locks.release_lock lock)) (λ _. pure tt)
    set_lock none

  unfoldable pub release : Exec (Node v) (Unit {0})
  unfolding release_held
  release n = release_held n.lock n

  unfoldable pub write_heartbeat : Exec (Node v) (Unit {0})
  unfolding ◌>>=◌
  write_heartbeat = do
    now ← on_clock v.clock.date_now
    on_keys (v.keys.set_ex "scheduler:leader:heartbeat" (v.to_text now) 45)

  -- `age > HEARTBEAT_STALE_THRESHOLD_MS`, false for NaN; a stamp from the future has no age.
  unfoldable pub is_stale_value : Option String → ℕ → Bool
  is_stale_value none now = true
  is_stale_value (some value) now = if str_eq value "" then true else (elim (v.parse_int value) [
    | none ↦ false
    | some stamp ↦ ltb heartbeat_stale_threshold_ms (now - stamp)
  ])

  unfoldable pub is_heartbeat_stale : Exec (Node v) Bool
  unfolding ◌>>=◌ is_stale_value
  is_heartbeat_stale = do
    value ← on_keys (v.keys.get "scheduler:leader:heartbeat")
    now ← on_clock v.clock.date_now
    pure (is_stale_value value now)

  unfoldable pub on_promoted : Exec (Node v) (Unit {0})
  on_promoted n = (ok tt, record n { poll_loop = Poll.start n.poll_loop })

  unfoldable pub on_demoted : Exec (Node v) (Unit {0})
  on_demoted n = (ok tt, record n { poll_loop = Poll.stop n.poll_loop })

  unfoldable pub promote : Exec (Node v) (Unit {0})
  unfolding ◌>>=◌ write_heartbeat on_promoted
  promote = do set_state leader; write_heartbeat; on_promoted

  unfoldable pub demote : Exec (Node v) (Unit {0})
  unfolding ◌>>=◌ release on_demoted
  demote = do set_state follower; release; on_demoted

  unfoldable pub schedule_watch : Exec (Node v) (Unit {0})
  schedule_watch n = (ok tt, record n { watch_timer = true })

  unfoldable pub lead : Exec (Node v) (Unit {0})
  unfolding ◌>>=◌ extend demote write_heartbeat schedule_watch
  lead = do
    extended ← extend
    if extended then (do write_heartbeat; schedule_watch) else (do demote; schedule_watch)

  unfoldable pub campaign : Bool → Exec (Node v) (Unit {0})
  unfolding ◌>>=◌ acquire promote
  campaign true = do
    set_state candidate
    acquired ← acquire
    if acquired then promote else set_state follower
  campaign false = pure tt

  unfoldable pub follow : Exec (Node v) (Unit {0})
  unfolding ◌>>=◌ is_heartbeat_stale campaign schedule_watch
  follow = do stale ← is_heartbeat_stale; campaign stale; schedule_watch

  -- The watch timer's callback.
  unfoldable pub watch_tick : Exec (Node v) (Unit {0})
  unfolding lead follow
  watch_tick n =
      let fired = record n { watch_timer = false } in
      if is_leader n.state then lead fired else follow fired

  -- LeaderElectionService.start and stop. This is a stop while no tick of the watch timer is under way;
  -- Election.Interrupted has what such a tick does after it.
  unfoldable pub start : Exec (Node v) (Unit {0})
  unfolding schedule_watch
  start = schedule_watch

  unfoldable pub stop : Exec (Node v) (Unit {0})
  unfolding demote
  stop n =
      let cleared = record n { watch_timer = false } in
      if is_leader n.state then demote cleared else (ok tt, cleared)
