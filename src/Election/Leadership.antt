-- ===== src/Election/Leadership.antt =====
-- What leadership means on one instance.
use hyperscale_job_scheduler.Base.{
  List, [], ◌∷◌, Bool, true, false, Option, none, some, ◌≡◌, refl, ◌⊎◌, inl, inr,
}
use hyperscale_job_scheduler.Exec.{Exec, pure, Result-cases, ◌>>=◌, ◌>>◌}
use hyperscale_job_scheduler.Exec.Keeps.{Keeps, Keeps-bind, Keeps-pure, Leads-bind}
use hyperscale_job_scheduler.Election.{
  Environment, Node, LeaderState, leader, follower, write_heartbeat, is_heartbeat_stale, demote,
  schedule_watch, lead, campaign, follow, watch_tick, start, stop, on_clock, on_keys, on_promoted,
  is_stale_value,
}
use hyperscale_job_scheduler.Poll

pub data Action : Type 0 where
  started ticked stopped : Action

-- A leader holds a lock. Any other instance is a follower that holds none and does not poll.
pub data Stance {L : Type 0} : LeaderState → Option L → Bool → Type 0 where
  leading : (l : L) (polls : Bool) → Stance leader (some l) polls
  waiting : Stance follower none false

unfoldable pub IsConsistent : {v : Environment} → Node v → Type 0
IsConsistent n = Stance n.state n.lock n.poll_loop.running

Waits : {v : Environment} → Node v → Type 0
Waits n = (n.state ≡ follower) × (n.lock ≡ none) × (n.poll_loop.running ≡ false)

module _ {v : Environment} where
  Leads : Node v → Type 0
  Leads n = (n.state ≡ leader) × ((l : v.locks.Lock) × (n.lock ≡ some l))

pub stance :
    {L : Type 0} (s : LeaderState) (l : Option L) (b : Bool)
    → Stance s l b
    → ((s ≡ leader) × ((x : L) × (l ≡ some x))) ⊎ ((s ≡ follower) × (l ≡ none) × (b ≡ false))
stance _ _ _ (leading l b) = inl (refl, (l, refl))
stance _ _ _ waiting = inr (refl, refl, refl)

module _ {v : Environment} where
  Waits-IsConsistent : (n : Node v) → Waits n → IsConsistent n
  unfolding Waits IsConsistent
  Waits-IsConsistent n (e, f, g) = rw (e, f, g) waiting

  Leads-IsConsistent : (n : Node v) → Leads n → IsConsistent n
  unfolding Leads IsConsistent
  Leads-IsConsistent n (e, (l, f)) = rw (e, f) (leading l n.poll_loop.running)

module _ (v : Environment) where
  Keeps-is_heartbeat_stale : Keeps Waits (is_heartbeat_stale v)
  unfolding is_heartbeat_stale Waits
  Keeps-is_heartbeat_stale =
      Keeps-bind (on_keys v (v.keys.get "scheduler:leader:heartbeat"))
        (λ value. on_clock v v.clock.date_now >>= λ now. pure (is_stale_value v value now))
        (record { holds = λ n h. h })
        (λ value.
          Keeps-bind (on_clock v v.clock.date_now) (λ now. pure (is_stale_value v value now))
            (record { holds = λ n h. h }) (λ now. Keeps-pure (is_stale_value v value now)))

  Keeps-write_heartbeat : Keeps Leads (write_heartbeat v)
  unfolding write_heartbeat Leads
  Keeps-write_heartbeat =
      Keeps-bind (on_clock v v.clock.date_now)
        (λ now. on_keys v (v.keys.set_ex "scheduler:leader:heartbeat" (v.to_text now) 45))
        (record { holds = λ n h. h }) (λ now. record { holds = λ n h. h })

  Keeps-schedule_watch : Keeps IsConsistent (schedule_watch v)
  unfolding schedule_watch IsConsistent
  Keeps-schedule_watch = record { holds = λ n h. h }

  then_watch : (n : Node v) → Leads n → IsConsistent ((write_heartbeat v >> schedule_watch v) n).1
  unfolding schedule_watch Leads
  then_watch n h = Leads-IsConsistent _ (
      (Keeps-bind (write_heartbeat v) (λ _. schedule_watch v) Keeps-write_heartbeat
          (λ _. record { holds = λ n h. h })).holds
        n h)

  then_poll : (n : Node v) → Leads n → IsConsistent ((write_heartbeat v >> on_promoted v) n).1
  unfolding on_promoted Leads
  then_poll n h = Leads-IsConsistent _ (
      (Keeps-bind (write_heartbeat v) (λ _. on_promoted v) Keeps-write_heartbeat
          (λ _. record { holds = λ n h. h })).holds
        n h)

  demoted : (n : Node v) (l : Option v.locks.Lock) → Waits (demote v (record n { lock = l })).1
  unfolding demote Waits Poll.stop
  demoted n none = (refl, refl, refl)
  demoted n (some l) = elim (Result-cases (v.locks.release_lock l n.net).0) [
    | inl h ↦ rw h.1 (refl, refl, refl)
    | inr h ↦ rw h.1 (refl, refl, refl)
  ]

  led : (n : Node v) → Leads n → IsConsistent (lead v n).1
  unfolding lead IsConsistent Leads Poll.stop
  led n (e, (l, f)) = elim (Result-cases (v.locks.extend_lock l n.net).0) [
    | inl h ↦ rw (f, h.1) waiting
    | inr h ↦
        rw (f, h.1)
          (then_watch (record n { lock = some h.0; net = (v.locks.extend_lock l n.net).1 })
            (e, (h.0, refl)))
  ]

  campaigned : (b : Bool) (n : Node v) → Waits n → IsConsistent (campaign v b n).1
  unfolding campaign IsConsistent Waits Leads Poll.start
  campaigned false n (e, f, g) = rw (e, f, g) waiting
  campaigned true n (e, f, g) = elim (Result-cases (v.locks.acquire_lock n.net).0) [
    | inl h ↦ rw (h.1, f, g) waiting
    | inr h ↦ rw h.1 (
        then_poll
          (record n { state = leader; lock = some h.0; net = (v.locks.acquire_lock n.net).1 })
          (refl, (h.0, refl)))
  ]

  followed : (n : Node v) → Waits n → IsConsistent (follow v n).1
  unfolding follow ◌>>=◌
  followed n h =
      (Leads-bind (is_heartbeat_stale v) (λ stale. campaign v stale >> schedule_watch v)
          Keeps-is_heartbeat_stale Waits-IsConsistent
          (λ stale.
            Leads-bind (campaign v stale) (λ _. schedule_watch v)
              (record { holds = campaigned stale }) (λ m q. q) (λ _. Keeps-schedule_watch))).holds
        n h

  watch_tick-IsConsistent : (n : Node v) → IsConsistent n → IsConsistent (watch_tick v n).1
  unfolding watch_tick IsConsistent Leads Waits
  watch_tick-IsConsistent n h = elim (stance n.state n.lock n.poll_loop.running h) [
    | inl (e, (l, f)) ↦ rw e (led (record n { state = leader; watch_timer = false }) (refl, (l, f)))
    | inr (e, f, g) ↦
        rw e (followed (record n { state = follower; watch_timer = false }) (refl, f, g))
  ]

  -- After `stop` a consistent instance is a follower that holds no lock, does not poll and has no
  -- watch timer, whatever the lock service answers or throws.
  pub stop_steps_down :
      (n : Node v)
      → IsConsistent n
      → ((stop v n).1.state ≡ follower)
        × ((stop v n).1.lock ≡ none)
        × ((stop v n).1.poll_loop.running ≡ false)
        × ((stop v n).1.watch_timer ≡ false)
  unfolding stop IsConsistent Poll.stop
  stop_steps_down n h = elim (stance n.state n.lock n.poll_loop.running h) [
    | inl (e, (l, f)) ↦ elim (Result-cases (v.locks.release_lock l n.net).0) [
      | inl r ↦ rw (e, f, r.1) (refl, refl, refl, refl)
      | inr r ↦ rw (e, f, r.1) (refl, refl, refl, refl)
    ]
    | inr (e, f, g) ↦ rw (e, f, g) (refl, refl, refl, refl)
  ]

  stop-IsConsistent : (n : Node v) → IsConsistent n → IsConsistent (stop v n).1
  unfolding Waits
  stop-IsConsistent n h =
      let (e, f, g, t) = stop_steps_down n h in Waits-IsConsistent (stop v n).1 (e, f, g)

  unfoldable pub perform : Action → Exec (Node v) (Unit {0})
  perform started = start v
  perform ticked = watch_tick v
  perform stopped = stop v

  pub perform-IsConsistent :
      (a : Action) (n : Node v) → IsConsistent n → IsConsistent (perform a n).1
  unfolding perform start
  perform-IsConsistent started n h = Keeps-schedule_watch.holds n h
  perform-IsConsistent ticked n h = watch_tick-IsConsistent n h
  perform-IsConsistent stopped n h = stop-IsConsistent n h

  pub perform_all : List Action → Node v → Node v
  unfolding perform
  perform_all [] n = n
  perform_all (a ∷ rest) n = perform_all rest (perform a n).1

  -- Through any sequence of calls of `start`, calls of `stop` and callbacks of the watch timer, a
  -- consistent instance stays consistent, whatever the lock service, Redis and the clock answer or
  -- throw: a leader holds a lock, and any other instance is a follower that holds no lock and does
  -- not poll.
  pub perform_all-IsConsistent :
      (actions : List Action) (n : Node v) → IsConsistent n → IsConsistent (perform_all actions n)
  unfolding perform_all
  perform_all-IsConsistent [] n h = h
  perform_all-IsConsistent (a ∷ rest) n h =
      perform_all-IsConsistent rest (perform a n).1 (perform-IsConsistent a n h)
