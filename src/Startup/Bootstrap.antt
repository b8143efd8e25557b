-- ===== src/Startup/Bootstrap.antt =====
-- A start that fails starts nothing that could claim or recover a job.
use hyperscale_job_scheduler.Base.{
  String, Bool, true, false, Option, none, some, List, [], ◌∷◌, ◌≡◌, refl, ◌⊎◌, inl, inr, str_eq,
  if◌then◌else◌,
}
use hyperscale_job_scheduler.Exec.{
  Exec, Message, Result, ok, err, continue, Result-cases, throw, ◌>>=◌,
}
use hyperscale_job_scheduler.Watchdog
use hyperscale_job_scheduler.Watchdog.{HeartbeatWatchdog}
use hyperscale_job_scheduler.OutboxPoller.Timer.{start_outbox_poller}
use hyperscale_job_scheduler.Election
use hyperscale_job_scheduler.Election.{Environment, Node, follower}
use hyperscale_job_scheduler.Startup.{
  Site, Service, bootstrap_server, boot_with, start_outbox, start_watchdog, start_election,
  run_step, run_steps, infrastructure_steps, on_net, new_node,
}

module _ (v : Environment) (site : Site) where
  -- Nothing polls, recovers or stands for election.
  abbrev pub IsQuiet : Service v site.Net → Type 0
  IsQuiet w = (w.watchdog ≡ none) × (w.node ≡ none)

  -- The outbox and the watchdog have their timers, and the instance is a follower that watches the
  -- leader and does not poll.
  pub record IsUp (w : Service v site.Net) : Type 0 where
    pub created : Node v
    pub outbox : w.outbox ≡ record { running = true; timer = true }
    pub watchdog : w.watchdog ≡ some (record { running = true; timer = true })
    pub node : w.node ≡ some created
    pub watches : created.watch_timer ≡ true
    pub follows : created.state ≡ follower
    pub waits : created.poll_loop.running ≡ false

  -- Before the outbox poller runs, and once it does.
  Fresh : Service v site.Net → Type 0
  Fresh w = IsQuiet w × (w.outbox.running ≡ false)

  Posting : Service v site.Net → Type 0
  Posting w = IsQuiet w × (w.outbox ≡ record { running = true; timer = true })

  -- How a call ends: as it should, or with an error and quiet.
  Ends : {A : Type 0} → (Service v site.Net → Type 0) → Result A → Service v site.Net → Type 0
  Ends {A} After r w =
      ((a : A) × ((r ≡ ok a) × After w)) ⊎ ((e : Message) × ((r ≡ err e) × IsQuiet w))

  record Boots {A : Type 0} (Before After : Service v site.Net → Type 0)
      (body : Exec (Service v site.Net) A) : Type 0 where
    pub boots : (w : Service v site.Net) → Before w → Ends After (body w).0 (body w).1

module _ (v : Environment) (site : Site) where
  resumed-Boots :
      {A B : Type 0} {Middle After : Service v site.Net → Type 0}
      (rest : A → Exec (Service v site.Net) B) (r : Result A) (w : Service v site.Net)
      → ((a : A) → Boots v site Middle After (rest a))
      → Ends v site Middle r w
      → Ends v site After (continue rest r w).0 (continue rest r w).1
  unfolding Ends
  resumed-Boots rest r w later (inl (a, (e, h))) = rw e ((later a).boots w h)
  resumed-Boots rest r w later (inr (x, (e, h))) = rw e (inr (x, (refl, h)))

  Boots-bind :
      {A B : Type 0} {Before Middle After : Service v site.Net → Type 0}
      (first : Exec (Service v site.Net) A) (rest : A → Exec (Service v site.Net) B)
      → Boots v site Before Middle first
      → ((a : A) → Boots v site Middle After (rest a))
      → Boots v site Before After (first >>= rest)
  unfolding ◌>>=◌
  Boots-bind first rest b later = record {
    boots = λ w h. resumed-Boots rest (first w).0 (first w).1 later (b.boots w h);
  }

  Boots-run_step :
      {Before After : Service v site.Net → Type 0} (step : Exec (Service v site.Net) (Unit {0}))
      → Boots v site Before After step
      → Boots v site Before After (run_step v site step)
  unfolding run_step Ends
  Boots-run_step step b = record {
    boots = λ w h. elim (b.boots w h) [
      | inl (a, (e, q)) ↦ rw e (inl (a, (refl, q)))
      | inr (x, (e, q)) ↦ rw e (inr (x, (refl, q)))
    ];
  }

  Boots-nil : {After : Service v site.Net → Type 0} → Boots v site After After (run_steps v site [])
  unfolding Ends run_steps
  Boots-nil = record { boots = λ w h. inl (tt, (refl, h)) }

  Boots-throw :
      {After : Service v site.Net → Type 0}
      → Boots v site (Fresh v site) After (throw {A = Unit {0}} site.url_missing)
  unfolding Ends throw Fresh
  Boots-throw = record { boots = λ w h. inr (site.url_missing, (refl, h.0)) }

  Boots-if :
      {Before After : Service v site.Net → Type 0} (b : Bool)
      (m m' : Exec (Service v site.Net) (Unit {0}))
      → Boots v site Before After m
      → Boots v site Before After m'
      → Boots v site Before After (if b then m else m')
  Boots-if true m m' h h' = h
  Boots-if false m m' h h' = h'

  -- A call outside changes none of the variables.
  Boots-Fresh :
      {A : Type 0} (m : Exec site.Net A)
      → Boots v site (Fresh v site) (Fresh v site) (on_net v site m)
  unfolding Fresh Ends
  Boots-Fresh m = record {
    boots = λ w h. elim (Result-cases (m w.net).0) [
      | inl (x, e) ↦ inr (x, (e, h.0))
      | inr (a, e) ↦ inl (a, (e, h))
    ];
  }

  Boots-Posting :
      {A : Type 0} (m : Exec site.Net A)
      → Boots v site (Posting v site) (Posting v site) (on_net v site m)
  unfolding Posting Ends
  Boots-Posting m = record {
    boots = λ w h. elim (Result-cases (m w.net).0) [
      | inl (x, e) ↦ inr (x, (e, h.0))
      | inr (a, e) ↦ inl (a, (e, h))
    ];
  }

  Boots-start_outbox : Boots v site (Fresh v site) (Posting v site) (start_outbox v site)
  unfolding Fresh Posting Ends start_outbox start_outbox_poller
  Boots-start_outbox = record { boots = λ w h. inl (tt, (refl, (h.0, rw h.1 refl))) }

  Boots-cons :
      {Before Middle After : Service v site.Net → Type 0}
      (step : Exec (Service v site.Net) (Unit {0}))
      (steps : List (Exec (Service v site.Net) (Unit {0})))
      → Boots v site Before Middle step
      → Boots v site Middle After (run_steps v site steps)
      → Boots v site Before After (run_steps v site (step ∷ steps))
  unfolding run_steps
  Boots-cons step steps b rest =
      Boots-bind (run_step v site step) (λ _. run_steps v site steps) (Boots-run_step step b)
        (λ _. rest)

  Boots-run_steps :
      (url : String)
      → Boots v site
          (Fresh v site)
          (Posting v site)
          (run_steps v site (infrastructure_steps v site url))
  Boots-run_steps url = Boots-cons _ _ (Boots-Fresh (site.connect_mongodb url)) (
      Boots-cons _ _ (Boots-Fresh site.connect_redis) (
        Boots-cons _ _ (Boots-Fresh site.connect_rabbitmq)
          (Boots-cons _ _ Boots-start_outbox Boots-nil)))

  Boots-start :
      (n : Node v)
      → n.state ≡ follower
      → n.poll_loop.running ≡ false
      → Boots v site
          (Posting v site)
          (IsUp v site)
          (start_watchdog v site >>= λ _. start_election v site n)
  unfolding Posting Ends start_watchdog start_election Watchdog.start Election.start ◌>>=◌
  Boots-start n f p = record {
    boots = λ w h. inl (
      tt,
      (
        refl,
        record {
          created = record n { watch_timer = true };
          outbox = h.1;
          watchdog = refl;
          node = refl;
          watches = refl;
          follows = f;
          waits = p;
        },
      ),
    );
  }

  booted :
      (url : Option String) (n : Node v)
      → n.state ≡ follower
      → n.poll_loop.running ≡ false
      → Boots v site (Fresh v site) (IsUp v site) (boot_with v site url n)
  unfolding boot_with
  booted none n f p = Boots-throw
  booted (some url) n f p = Boots-if (str_eq url "") _ _ Boots-throw (
      Boots-bind (run_steps v site (infrastructure_steps v site url)) _ (Boots-run_steps url) (λ _.
        Boots-bind (on_net v site site.reset_stale_jobs) _ (Boots-Posting site.reset_stale_jobs)
          (λ _. Boots-start n f p)))

  -- A start either returns with the outbox poller, the watchdog and the election started, or throws
  -- and has started neither watchdog nor election: where the url is missing, a connection fails or
  -- the stale jobs could not be reset.
  pub bootstrap_server-IsUp :
      (queue : v.Queue) (locks : v.locks.Net) (keys : v.keys.Keys) (time : v.clock.Time)
      (w : Service v site.Net)
      → IsQuiet v site w
      → w.outbox.running ≡ false
      → let (r, w') = bootstrap_server v site queue locks keys time w in
        ((u : Unit {0}) × ((r ≡ ok u) × IsUp v site w'))
        ⊎ ((e : Message) × ((r ≡ err e) × IsQuiet v site w'))
  unfolding bootstrap_server Ends Fresh
  bootstrap_server-IsUp queue locks keys time w quiet idle =
      (booted site.database_url (new_node v queue locks keys time) refl refl).boots w (quiet, idle)
