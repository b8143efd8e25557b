-- ===== src/Election/Instances.antt =====
-- Several instances over one Redis: what one of them does, and time that passes. Each call of an
-- instance is one step. An instance has its own clock and poll loop, and shares the lock service and
-- the keys.
use hyperscale_job_scheduler.Base.{ℕ, true, false, none, some, ◌==◌, if◌then◌else◌, ◌≡◌, ◌≢◌}
use hyperscale_job_scheduler.Election.{Environment, Node, follower}
use hyperscale_job_scheduler.Election.Leadership.{Action, ticked, perform, IsConsistent}
use hyperscale_job_scheduler.Election.Leases.{Leases}

-- The instances by number, and what they share.
pub record Cluster (v : Environment) : Type 0 where
  pub nodes : ℕ → Node v
  pub net : v.locks.Net
  pub keys : v.keys.Keys

module _ (v : Environment) where
  -- An instance as its next call finds it.
  abbrev pub instance_of : Cluster v → ℕ → Node v
  instance_of c i = record (c.nodes i) { net = c.net; keys = c.keys }

  abbrev set_node : (ℕ → Node v) → ℕ → Node v → ℕ → Node v
  set_node nodes i n j = if j == i then n else nodes j

  unfoldable pub act : ℕ → Action → Cluster v → Cluster v
  act i a c =
      let n = (perform v a (instance_of c i)).1 in
      record { nodes = set_node c.nodes i n; net = n.net; keys = n.keys }

-- A follower that holds no lock and does not poll.
pub record IsDown {v : Environment} (n : Node v) : Type 0 where
  pub follows : n.state ≡ follower
  pub unlocked : n.lock ≡ none
  pub quiet : n.poll_loop.running ≡ false

module _ (v : Environment) (g : Leases v.locks) where
  open g use {Value, value, held, issued}

  -- No value is issued twice, and none that is gone comes back.
  pub record Later (s s' : v.locks.Net) : Type 0 where
    pub stays_issued : (a : Value) → issued s a ≡ true → issued s' a ≡ true
    pub stays_gone : (a : Value) → issued s a ≡ true → held s a ≡ false → held s' a ≡ false

  -- A call of an instance, or time that passes, in which locks and keys expire.
  pub data Step (c : Cluster v) : Cluster v → Type 0 where
    acts : (i : ℕ) (a : Action) → Step c (act v i a c)
    passes :
        (s : v.locks.Net) (k : v.keys.Keys)
        → Later c.net s
        → Step c (record c { net = s; keys = k })

  pub data Reach (c : Cluster v) : Cluster v → Type 0 where
    here : Reach c c
    next : {d e : Cluster v} → Reach c d → Step d e → Reach c e

  -- The value of an instance's lock was given to it, and to no other instance.
  pub record IsSound (c : Cluster v) : Type 0 where
    pub consistent : (i : ℕ) → IsConsistent (c.nodes i)
    pub given :
        (i : ℕ) (l : v.locks.Lock) → (c.nodes i).lock ≡ some l → issued c.net (value l) ≡ true
    pub own :
        (i j : ℕ) (l m : v.locks.Lock)
        → (c.nodes i).lock ≡ some l
        → (c.nodes j).lock ≡ some m
        → value l ≡ value m
        → i ≡ j

  -- What happens while an instance makes no call.
  pub data Without (i : ℕ) (c : Cluster v) : Cluster v → Type 0 where
    nothing : Without i c c
    other : {d : Cluster v} (j : ℕ) (a : Action) → Without i c d → i ≢ j → Without i c (act v j a d)
    elapsed :
        {d : Cluster v} (s : v.locks.Net) (k : v.keys.Keys)
        → Without i c d
        → Later d.net s
        → Without i c (record d { net = s; keys = k })

  -- Whatever happens before the instance's next watch tick, that tick takes it down.
  abbrev pub StepsDown : ℕ → Cluster v → Type 0
  StepsDown i c = (d : Cluster v) → Without i c d → IsDown ((act v i ticked d).nodes i)
