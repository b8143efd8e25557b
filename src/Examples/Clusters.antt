-- ===== src/Examples/Clusters.antt =====
-- Two instances over one in-memory lock that expires.
use hyperscale_job_scheduler.Base.{
  ℕ, suc, Bool, true, false, Option, none, some, [], ltb, ◌==◌, if◌then◌else◌, ◌≡◌, refl, arith,
  ◌⊎◌,
}
use hyperscale_job_scheduler.Exec.{Result, ok, err, ok-eq}
use hyperscale_job_scheduler.Election.{
  Environment, LockService, Node, leader, follower, is_stale_value, watch_tick,
}
use hyperscale_job_scheduler.Election.Leadership.{ticked, perform, IsConsistent, waiting}
use hyperscale_job_scheduler.Election.Leases.{Leases}
use hyperscale_job_scheduler.Election.Instances.{
  Cluster, act, Later, acts, passes, Reach, here, next, IsSound, StepsDown,
}
use hyperscale_job_scheduler.Election.Rivals.{rivals-StepsDown}
use hyperscale_job_scheduler.Examples.Elections.{environment, fresh}

-- The lock that the key has, and the number of the next one.
record LockTable : Type 0 where
  holder : Option ℕ
  upcoming : ℕ

abbrev is_held : Option ℕ → ℕ → Bool
is_held none a = false
is_held (some x) a = x == a

abbrev take_lock : Option ℕ → LockTable → Result ℕ × LockTable
take_lock none s = (ok s.upcoming, record { holder = some s.upcoming; upcoming = suc s.upcoming })
take_lock (some x) s = (err [], s)

abbrev expiring_locks : LockService
expiring_locks = record {
  Net = LockTable;
  Lock = ℕ;
  acquire_lock = λ s. take_lock s.holder s;
  extend_lock = λ l s. (if is_held s.holder l then ok l else err [], s);
  release_lock = λ l s. (ok tt, if is_held s.holder l then record s { holder = none } else s);
}

taken_issued :
    (h : Option ℕ) (s : LockTable) (a : ℕ)
    → ltb a s.upcoming ≡ true
    → ltb a (take_lock h s).1.upcoming ≡ true
taken_issued none s a p = ground arith
taken_issued (some x) s a p = p

taken_held :
    (h : Option ℕ) (s : LockTable) (a : ℕ)
    → s.holder ≡ h
    → ltb a s.upcoming ≡ true
    → is_held s.holder a ≡ false
    → is_held (take_lock h s).1.holder a ≡ false
taken_held none s a e p q = ground arith
taken_held (some x) s a e p q = q

taken_fresh :
    (h : Option ℕ) (s : LockTable) (l : ℕ)
    → (take_lock h s).0 ≡ ok l
    → (ltb l s.upcoming ≡ false) × (ltb l (take_lock h s).1.upcoming ≡ true)
taken_fresh none s l e =
    let same : l ≡ s.upcoming = ok-eq s.upcoming l e in (ground arith, ground arith)
taken_fresh (some x) s l e = absurd (ground arith)

kept_only :
    (l m : ℕ) (s : LockTable)
    → (if is_held s.holder l then ok l else err []) ≡ ok m
    → (is_held s.holder l ≡ true) × (m ≡ l)
kept_only l m s e = ground arith

one_holder_of : (h : Option ℕ) (a b : ℕ) → is_held h a ≡ true → is_held h b ≡ true → a ≡ b
one_holder_of none a b p q = absurd (ground arith)
one_holder_of (some x) a b p q = ground arith

released_issued :
    (l : ℕ) (s : LockTable) (a : ℕ)
    → ltb a s.upcoming ≡ true
    → ltb a (if is_held s.holder l then record s { holder = none } else s).upcoming ≡ true
released_issued l s a p = ground arith

released_held :
    (l : ℕ) (s : LockTable) (a : ℕ)
    → is_held s.holder a ≡ false
    → is_held (if is_held s.holder l then record s { holder = none } else s).holder a ≡ false
released_held l s a q = ground arith

abbrev memory_leases : Leases expiring_locks
memory_leases = record {
  Value = ℕ;
  value = λ l. l;
  held = λ s a. is_held s.holder a;
  issued = λ s a. ltb a s.upcoming;
  one_holder = λ s a b. one_holder_of s.holder a b;
  acquire-issued = λ s a. taken_issued s.holder s a;
  acquire-held = λ s a. taken_held s.holder s a refl;
  acquire_fresh = λ s l. taken_fresh s.holder s l;
  extend-issued = λ l s a p. p;
  extend-held = λ l s a p q. q;
  extend_only = λ l m s. kept_only l m s;
  release-issued = λ l s a. released_issued l s a;
  release-held = λ l s a p. released_held l s a;
}

abbrev shared : Environment
shared = record environment { locks = expiring_locks }

abbrev idle : Node shared
idle = record {
  state = follower;
  lock = none;
  watch_timer = true;
  poll_loop = fresh.poll_loop;
  net = record { holder = none; upcoming = 0 };
  keys = λ k. none;
  time = 100;
}

abbrev at_first : Cluster shared
at_first = record {
  nodes = λ i. idle;
  net = record { holder = none; upcoming = 0 };
  keys = λ k. none;
}

at_first-IsSound : IsSound shared memory_leases at_first
unfolding IsConsistent
at_first-IsSound = record {
  consistent = λ i. waiting;
  given = λ i l p. absurd (ground arith);
  own = λ i j l m p q r. absurd (ground arith);
}

-- One instance leads, its lock and heartbeat expire, and the other takes over.
abbrev one_leads : Cluster shared
one_leads = act shared 0 ticked at_first

abbrev lapsed : Cluster shared
lapsed = record one_leads { net = record { holder = none; upcoming = 1 }; keys = λ k. none }

abbrev both_lead : Cluster shared
both_lead = act shared 1 ticked lapsed

lapse : Later shared memory_leases one_leads.net (record { holder = none; upcoming = 1 })
unfolding act perform watch_tick is_stale_value
lapse = record { stays_issued = λ a p. p; stays_gone = λ a p q. refl }

two_lead : Reach shared memory_leases at_first both_lead
two_lead =
    next {d = lapsed}
      (next {d = one_leads} (next here (acts 0 ticked))
        (passes (record { holder = none; upcoming = 1 }) (λ k. none) lapse))
      (acts 1 ticked)

first_leads : (both_lead.nodes 0).state ≡ leader
unfolding act perform watch_tick is_stale_value
first_leads = refl

second_leads : (both_lead.nodes 1).state ≡ leader
unfolding act perform watch_tick is_stale_value
second_leads = refl

rivals-StepsDown_example :
    StepsDown shared memory_leases 0 both_lead ⊎ StepsDown shared memory_leases 1 both_lead
rivals-StepsDown_example =
    rivals-StepsDown shared memory_leases two_lead at_first-IsSound 0 1 (λ e. absurd (omega arith))
      first_leads second_leads
