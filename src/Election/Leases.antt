-- ===== src/Election/Leases.antt =====
-- What the election relies on in the lock service, whose lock is a value under a key with a time to
-- live, and what one call of an instance does to the lock.
use hyperscale_job_scheduler.Base.{Bool, true, false, Option, none, some, ◌≡◌, refl, sym, inl, inr}
use hyperscale_job_scheduler.Exec.{ok, pure, Result-cases, ◌>>=◌, ◌>>◌}
use hyperscale_job_scheduler.Exec.Keeps.{Keeps, Keeps-bind, Keeps-pure, Leads-bind}
use hyperscale_job_scheduler.Election.{
  LockService, Environment, Node, leader, follower, write_heartbeat, is_heartbeat_stale, demote,
  schedule_watch, lead, campaign, follow, watch_tick, start, stop, on_clock, on_keys, on_promoted,
  is_stale_value,
}
use hyperscale_job_scheduler.Election.Leadership.{
  Action, started, ticked, stopped, perform, IsConsistent, stance,
}
use hyperscale_job_scheduler.Poll

-- `held` tells whether the key has this value, and `issued` whether the service ever gave a lock with
-- it: a new lock has a random value.
pub record Leases (locks : LockService) : Type 1 where
  pub Value : Type 0
  pub value : locks.Lock → Value
  pub held : locks.Net → Value → Bool
  pub issued : locks.Net → Value → Bool
  pub one_holder : (s : locks.Net) (a b : Value) → held s a ≡ true → held s b ≡ true → a ≡ b
  -- A value that was given once is never given again and, once it is gone, is not stored again.
  pub acquire-issued :
      (s : locks.Net) (a : Value) → issued s a ≡ true → issued (locks.acquire_lock s).1 a ≡ true
  pub acquire-held :
      (s : locks.Net) (a : Value)
      → issued s a ≡ true
      → held s a ≡ false
      → held (locks.acquire_lock s).1 a ≡ false
  pub acquire_fresh :
      (s : locks.Net) (l : locks.Lock)
      → (locks.acquire_lock s).0 ≡ ok l
      → (issued s (value l) ≡ false) × (issued (locks.acquire_lock s).1 (value l) ≡ true)
  pub extend-issued :
      (l : locks.Lock) (s : locks.Net) (a : Value)
      → issued s a ≡ true
      → issued (locks.extend_lock l s).1 a ≡ true
  pub extend-held :
      (l : locks.Lock) (s : locks.Net) (a : Value)
      → issued s a ≡ true
      → held s a ≡ false
      → held (locks.extend_lock l s).1 a ≡ false
  -- A lock is extended only while the key has its value, which stays.
  pub extend_only :
      (l l' : locks.Lock) (s : locks.Net)
      → (locks.extend_lock l s).0 ≡ ok l'
      → (held s (value l) ≡ true) × (value l' ≡ value l)
  pub release-issued :
      (l : locks.Lock) (s : locks.Net) (a : Value)
      → issued s a ≡ true
      → issued (locks.release_lock l s).1 a ≡ true
  pub release-held :
      (l : locks.Lock) (s : locks.Net) (a : Value)
      → issued s a ≡ true
      → held s a ≡ false
      → held (locks.release_lock l s).1 a ≡ false

-- What one call does to the lock of its instance.
pub data Grants (locks : LockService) (s : locks.Net) (l : Option locks.Lock) (s' : locks.Net)
    (l' : Option locks.Lock) : Type 0 where
  untouched : s' ≡ s → l' ≡ l → Grants locks s l s' l'
  acquired :
      (x : locks.Lock)
      → (locks.acquire_lock s).0 ≡ ok x
      → s' ≡ (locks.acquire_lock s).1
      → l' ≡ some x
      → Grants locks s l s' l'
  refused : s' ≡ (locks.acquire_lock s).1 → l' ≡ l → Grants locks s l s' l'
  extended :
      (x y : locks.Lock)
      → l ≡ some x
      → (locks.extend_lock x s).0 ≡ ok y
      → s' ≡ (locks.extend_lock x s).1
      → l' ≡ some y
      → Grants locks s l s' l'
  lost : (x : locks.Lock) → s' ≡ (locks.extend_lock x s).1 → l' ≡ none → Grants locks s l s' l'
  released : (x : locks.Lock) → s' ≡ (locks.release_lock x s).1 → l' ≡ none → Grants locks s l s' l'

-- The lock of an instance and the service stand so.
abbrev StandsAt : {v : Environment} → v.locks.Net → Option v.locks.Lock → Node v → Type 0
StandsAt s l n = (n.net ≡ s) × (n.lock ≡ l)

module _ (v : Environment) where
  module _ (s : v.locks.Net) (l : Option v.locks.Lock) where
    Keeps-is_heartbeat_stale : Keeps (StandsAt s l) (is_heartbeat_stale v)
    unfolding is_heartbeat_stale
    Keeps-is_heartbeat_stale =
        Keeps-bind (on_keys v (v.keys.get "scheduler:leader:heartbeat"))
          (λ value. on_clock v v.clock.date_now >>= λ now. pure (is_stale_value v value now))
          (record { holds = λ n h. h })
          (λ value.
            Keeps-bind (on_clock v v.clock.date_now) (λ now. pure (is_stale_value v value now))
              (record { holds = λ n h. h }) (λ now. Keeps-pure (is_stale_value v value now)))

    Keeps-write_heartbeat : Keeps (StandsAt s l) (write_heartbeat v)
    unfolding write_heartbeat
    Keeps-write_heartbeat =
        Keeps-bind (on_clock v v.clock.date_now)
          (λ now. on_keys v (v.keys.set_ex "scheduler:leader:heartbeat" (v.to_text now) 45))
          (record { holds = λ n h. h }) (λ now. record { holds = λ n h. h })

    then_watch : Keeps (StandsAt s l) (write_heartbeat v >> schedule_watch v)
    unfolding schedule_watch
    then_watch =
        Keeps-bind (write_heartbeat v) (λ _. schedule_watch v) Keeps-write_heartbeat
          (λ _. record { holds = λ n h. h })

    then_poll : Keeps (StandsAt s l) (write_heartbeat v >> on_promoted v)
    unfolding on_promoted
    then_poll =
        Keeps-bind (write_heartbeat v) (λ _. on_promoted v) Keeps-write_heartbeat
          (λ _. record { holds = λ n h. h })

  unfoldable pub GrantsAt : Node v → Node v → Type 0
  GrantsAt n n' = Grants v.locks n.net n.lock n'.net n'.lock

  led : (n : Node v) (l : v.locks.Lock) → n.lock ≡ some l → GrantsAt n (lead v n).1
  unfolding GrantsAt lead Poll.stop
  led n l f = elim (Result-cases (v.locks.extend_lock l n.net).0) [
    | inl h ↦ rw (f, h.1) (lost l refl refl)
    | inr (y, e) ↦
        let m = record n { lock = some y; net = (v.locks.extend_lock l n.net).1 } in
        let (net, lock) = (then_watch m.net m.lock).holds m (refl, refl) in
        rw (f, e) (extended l y refl e net lock)
  ]

  campaigned : (b : Bool) (n : Node v) → GrantsAt n (campaign v b n).1
  unfolding GrantsAt campaign Poll.start
  campaigned false n = untouched refl refl
  campaigned true n = elim (Result-cases (v.locks.acquire_lock n.net).0) [
    | inl h ↦ rw h.1 (refused refl refl)
    | inr (y, e) ↦
        let m = record n { state = leader; lock = some y; net = (v.locks.acquire_lock n.net).1 } in
        let (net, lock) = (then_poll m.net m.lock).holds m (refl, refl) in
        rw e (acquired y e net lock)
  ]

  followed : (n : Node v) → GrantsAt n (follow v n).1
  unfolding GrantsAt follow ◌>>=◌ schedule_watch
  followed n =
      (Leads-bind {Before = StandsAt n.net n.lock}
          {After = λ m. Grants v.locks n.net n.lock m.net m.lock} (is_heartbeat_stale v)
          (λ stale. campaign v stale >> schedule_watch v) (Keeps-is_heartbeat_stale n.net n.lock)
          (λ m h. untouched h.0 h.1)
          (λ stale.
            Leads-bind (campaign v stale) (λ _. schedule_watch v)
              (record { holds = λ m h. rw (sym h.0, sym h.1) (campaigned stale m) }) (λ m q. q)
              (λ _. record { holds = λ m q. q }))).holds
        n (refl, refl)

  pub perform-Grants : (a : Action) (n : Node v) → IsConsistent n → GrantsAt n (perform v a n).1
  unfolding GrantsAt perform start stop watch_tick demote IsConsistent schedule_watch
  perform-Grants started n h = untouched refl refl
  perform-Grants ticked n h = elim (stance n.state n.lock n.poll_loop.running h) [
    | inl (e, (l, f)) ↦ rw e (led (record n { state = leader; watch_timer = false }) l f)
    | inr (e, f, g) ↦ rw e (followed (record n { state = follower; watch_timer = false }))
  ]
  perform-Grants stopped n h = elim (stance n.state n.lock n.poll_loop.running h) [
    | inl (e, (l, f)) ↦ elim (Result-cases (v.locks.release_lock l n.net).0) [
      | inl r ↦ rw (e, f, r.1) (released l refl refl)
      | inr r ↦ rw (e, f, r.1) (released l refl refl)
    ]
    | inr (e, f, g) ↦ rw e (untouched refl refl)
  ]
