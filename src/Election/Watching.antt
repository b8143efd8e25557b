-- ===== src/Election/Watching.antt =====
-- Whether an instance goes on watching after a tick.
use hyperscale_job_scheduler.Base.{
  Bool, true, false, Option, none, some, if◌then◌else◌, ◌≡◌, refl, ◌⊎◌, inl, inr, Bool-cases,
}
use hyperscale_job_scheduler.Exec.{Exec, Message, Result, ok, err, continue, ◌>>=◌}
use hyperscale_job_scheduler.Exec.Keeps.{Keeps, keeping}
use hyperscale_job_scheduler.Election.{
  Environment, Node, LeaderState, is_leader, watch_tick, follow, is_heartbeat_stale, campaign,
  acquire, promote, write_heartbeat, on_promoted, on_demoted, schedule_watch, lead, extend,
  extend_held, demote, release, release_held, on_net, on_keys, on_clock, set_lock, set_state,
}

module _ (v : Environment) where
  -- The watch timer is not set.
  unfoldable pub Idle : Node v → Type 0
  Idle n = n.watch_timer ≡ false

  unfoldable pub Ended : Result (Unit {0}) → Bool → Type 0
  Ended r timer = ((r ≡ ok tt) × (timer ≡ true)) ⊎ ((e : Message) × ((r ≡ err e) × (timer ≡ false)))

  pub record Rearms (body : Exec (Node v) (Unit {0})) : Type 0 where
    pub ends : (n : Node v) → Idle n → Ended (body n).0 (body n).1.watch_timer

module _ (v : Environment) where
  pub Keeps-on_net : {A : Type 0} (m : Exec v.locks.Net A) → Keeps (Idle v) (on_net v m)
  unfolding Idle
  Keeps-on_net m = record { holds = λ n h. h }

  pub Keeps-on_keys : {A : Type 0} (m : Exec v.keys.Keys A) → Keeps (Idle v) (on_keys v m)
  unfolding Idle
  Keeps-on_keys m = record { holds = λ n h. h }

  pub Keeps-on_clock : {A : Type 0} (m : Exec v.clock.Time A) → Keeps (Idle v) (on_clock v m)
  unfolding Idle
  Keeps-on_clock m = record { holds = λ n h. h }

  pub Keeps-set_lock : (l : Option v.locks.Lock) → Keeps (Idle v) (set_lock v l)
  unfolding Idle
  Keeps-set_lock l = record { holds = λ n h. h }

  pub Keeps-set_state : (st : LeaderState) → Keeps (Idle v) (set_state v st)
  unfolding Idle
  Keeps-set_state st = record { holds = λ n h. h }

  pub Keeps-on_promoted : Keeps (Idle v) (on_promoted v)
  unfolding Idle on_promoted
  Keeps-on_promoted = record { holds = λ n h. h }

  pub Keeps-on_demoted : Keeps (Idle v) (on_demoted v)
  unfolding Idle on_demoted
  Keeps-on_demoted = record { holds = λ n h. h }

  pub ruleset idling = (
    Keeps-on_net, Keeps-on_keys, Keeps-on_clock, Keeps-set_lock, Keeps-set_state, Keeps-on_promoted,
    Keeps-on_demoted, keeping,
  )

  pub Keeps-write_heartbeat : Keeps (Idle v) (write_heartbeat v)
  unfolding write_heartbeat
  Keeps-write_heartbeat = search idling

  pub Keeps-is_heartbeat_stale : Keeps (Idle v) (is_heartbeat_stale v)
  unfolding is_heartbeat_stale
  Keeps-is_heartbeat_stale = search idling

  pub Keeps-acquire : Keeps (Idle v) (acquire v)
  unfolding acquire
  Keeps-acquire = search idling

  pub Keeps-promote : Keeps (Idle v) (promote v)
  unfolding promote
  Keeps-promote = search (idling, Keeps-write_heartbeat)

  pub Keeps-campaign : (b : Bool) → Keeps (Idle v) (campaign v b)
  unfolding campaign
  Keeps-campaign true = search (idling, Keeps-acquire, Keeps-promote)
  Keeps-campaign false = search idling

  pub Keeps-release_held : (l : Option v.locks.Lock) → Keeps (Idle v) (release_held v l)
  unfolding release_held
  Keeps-release_held none = search idling
  Keeps-release_held (some lock) = search idling

  pub Keeps-release : Keeps (Idle v) (release v)
  unfolding release
  Keeps-release = record { holds = λ n h. (Keeps-release_held n.lock).holds n h }

  pub Keeps-demote : Keeps (Idle v) (demote v)
  unfolding demote
  Keeps-demote = search (idling, Keeps-release)

  pub Keeps-extend_held : (l : Option v.locks.Lock) → Keeps (Idle v) (extend_held v l)
  unfolding extend_held
  Keeps-extend_held none = search idling
  Keeps-extend_held (some lock) = search idling

  pub Keeps-extend : Keeps (Idle v) (extend v)
  unfolding extend
  Keeps-extend = record { holds = λ n h. (Keeps-extend_held n.lock).holds n h }

  then_watched :
      (r : Result (Unit {0})) (n : Node v)
      → Idle v n
      → let (q, n') = continue (λ _. schedule_watch v) r n in Ended v q n'.watch_timer
  unfolding Idle Ended schedule_watch
  then_watched (ok u) n h = inl (refl, refl)
  then_watched (err e) n h = inr (e, (refl, h))

  pub Rearms-last :
      (m : Exec (Node v) (Unit {0})) → Keeps (Idle v) m → Rearms v (m >>= λ _. schedule_watch v)
  unfolding ◌>>=◌
  Rearms-last m k = record { ends = λ n h. then_watched (m n).0 (m n).1 (k.holds n h) }

  resumed-Ended :
      {A : Type 0} (rest : A → Exec (Node v) (Unit {0})) (r : Result A) (n : Node v)
      → ((x : A) → Rearms v (rest x))
      → Idle v n
      → let (q, n') = continue rest r n in Ended v q n'.watch_timer
  unfolding Idle Ended
  resumed-Ended rest (ok x) n later h = (later x).ends n h
  resumed-Ended rest (err e) n later h = inr (e, (refl, h))

  pub Rearms-later :
      {A : Type 0} (m : Exec (Node v) A) (rest : A → Exec (Node v) (Unit {0}))
      → Keeps (Idle v) m
      → ((x : A) → Rearms v (rest x))
      → Rearms v (m >>= rest)
  unfolding ◌>>=◌
  Rearms-later m rest k later = record {
    ends = λ n h. resumed-Ended rest (m n).0 (m n).1 later (k.holds n h);
  }

  pub Rearms-if :
      (b : Bool) (m m' : Exec (Node v) (Unit {0}))
      → Rearms v m
      → Rearms v m'
      → Rearms v (if b then m else m')
  Rearms-if true m m' h h' = h
  Rearms-if false m m' h h' = h'

  pub Rearms-lead : Rearms v (lead v)
  unfolding lead
  Rearms-lead =
      search
        (Rearms-later, Rearms-if, Rearms-last, Keeps-extend, Keeps-write_heartbeat, Keeps-demote)

  pub Rearms-follow : Rearms v (follow v)
  unfolding follow
  Rearms-follow = search (Rearms-later, Rearms-last, Keeps-is_heartbeat_stale, Keeps-campaign)

  -- After a callback of the watch timer the timer is set again exactly when the callback did not
  -- throw, whatever the instance was, and whatever the lock service and Redis answered.
  pub watch_tick_rearms :
      (n : Node v)
      → (((watch_tick v n).0 ≡ ok tt) × ((watch_tick v n).1.watch_timer ≡ true))
        ⊎ ((e : Message) × (((watch_tick v n).0 ≡ err e)
              × ((watch_tick v n).1.watch_timer ≡ false)))
  unfolding watch_tick Ended Idle
  watch_tick_rearms n = elim (Bool-cases (is_leader n.state)) [
    | inl e ↦ rw e (Rearms-lead.ends (record n { watch_timer = false }) refl)
    | inr e ↦ rw e (Rearms-follow.ends (record n { watch_timer = false }) refl)
  ]
