-- ===== src/Startup.antt =====
-- How the process starts and ends: bootstrapServer of src/bootStrap.ts, and `shutdown` of
-- src/shutdown.ts up to process.exit; Startup.Process has the signals, the listener and process.exit.
-- Log lines are left out. The calls of the connections and of the repository are an interface here; the
-- election, the poll loop and the timers are the components themselves.
pub mod Bootstrap
pub mod Shutdown
pub mod Process
use hyperscale_job_scheduler.Base.{
  ℕ, ◌≤◌, String, Bool, true, false, Option, none, some, List, [], ◌∷◌, str_eq, if◌then◌else◌,
}
use hyperscale_job_scheduler.Exec.{Exec, Message, Result, ok, pure, throw, try_catch, ◌>>=◌, ◌>>◌}
use hyperscale_job_scheduler.Poll
use hyperscale_job_scheduler.Poll.Drain.{Moment, drain}
use hyperscale_job_scheduler.Watchdog
use hyperscale_job_scheduler.Watchdog.{HeartbeatWatchdog}
use hyperscale_job_scheduler.OutboxPoller.Timer.{
  PollerTimer, start_outbox_poller, stop_outbox_poller,
}
use hyperscale_job_scheduler.Election
use hyperscale_job_scheduler.Election.{Environment, Node, follower}

-- What start and end call outside: the connections, and resetStaleJobs of the repository.
pub record Site : Type 1 where
  pub Net : Type 0
  pub database_url : Option String
  pub url_missing : Message
  pub connect_mongodb : String → Exec Net (Unit {0})
  pub connect_redis : Exec Net (Unit {0})
  pub connect_rabbitmq : Exec Net (Unit {0})
  pub reset_stale_jobs : Exec Net ℕ
  pub disconnect_rabbitmq : Exec Net (Unit {0})
  pub disconnect_redis : Exec Net (Unit {0})
  pub close_mongodb : Exec Net (Unit {0})

-- The module variables of the process; the poll loop is that of the election's callbacks.
pub record Service (v : Environment) (Net : Type 0) : Type 0 where
  pub net : Net
  pub outbox : PollerTimer
  pub watchdog : Option HeartbeatWatchdog
  pub node : Option (Node v)

-- `new HeartbeatWatchdog(redis)`
abbrev pub new_watchdog : HeartbeatWatchdog
new_watchdog = record { running = false; timer = false }

-- `new PollLoop(queue, ...)` and `new LeaderElectionService(redis, redlock)`
abbrev pub new_node :
    (v : Environment) → v.Queue → v.locks.Net → v.keys.Keys → v.clock.Time → Node v
new_node v queue net keys time = record {
  state = follower;
  lock = none;
  watch_timer = false;
  poll_loop = record {
    running = false;
    active_jobs = 0;
    timer = false;
    queue = queue;
    in_flight = [];
  };
  net = net;
  keys = keys;
  time = time;
}

module _ (v : Environment) (site : Site) where
  abbrev pub on_net : {A : Type 0} → Exec site.Net A → Exec (Service v site.Net) A
  on_net m w = let (r, x) = m w.net in (r, record w { net = x })

  unfoldable pub start_outbox : Exec (Service v site.Net) (Unit {0})
  unfolding start_outbox_poller
  start_outbox w = (ok tt, record w { outbox = start_outbox_poller w.outbox })

  abbrev pub infrastructure_steps : String → List (Exec (Service v site.Net) (Unit {0}))
  infrastructure_steps mongo_url =
      on_net (site.connect_mongodb mongo_url)
      ∷ on_net site.connect_redis
      ∷ on_net site.connect_rabbitmq
      ∷ start_outbox
      ∷ []

  -- A step that throws is logged and thrown on.
  unfoldable pub run_step :
      Exec (Service v site.Net) (Unit {0}) → Exec (Service v site.Net) (Unit {0})
  unfolding try_catch
  run_step step = try_catch step (λ e. throw e)

  unfoldable pub run_steps :
      List (Exec (Service v site.Net) (Unit {0})) → Exec (Service v site.Net) (Unit {0})
  unfolding run_step ◌>>=◌
  run_steps [] = pure tt
  run_steps (step ∷ steps) = do run_step step; run_steps steps

  unfoldable pub start_watchdog : Exec (Service v site.Net) (Unit {0})
  unfolding Watchdog.start
  start_watchdog w = (ok tt, record w { watchdog = some (Watchdog.start new_watchdog) })

  unfoldable pub start_election : Node v → Exec (Service v site.Net) (Unit {0})
  unfolding Election.start
  start_election created w = (ok tt, record w { node = some (Election.start v created).1 })

  -- An empty url is as none.
  unfoldable pub boot_with : Option String → Node v → Exec (Service v site.Net) (Unit {0})
  unfolding run_steps start_watchdog start_election ◌>>=◌
  boot_with none created = throw site.url_missing
  boot_with (some mongo_url) created = if str_eq mongo_url "" then throw site.url_missing else (do
    run_steps (infrastructure_steps mongo_url)
    on_net site.reset_stale_jobs
    start_watchdog
    start_election created)

  -- With what the constructors of the queue, the lock and the clock give.
  unfoldable pub bootstrap_server :
      v.Queue → v.locks.Net → v.keys.Keys → v.clock.Time → Exec (Service v site.Net) (Unit {0})
  unfolding boot_with
  bootstrap_server queue locks keys time =
      boot_with site.database_url (new_node v queue locks keys time)

  unfoldable pub stop_poll_loop : Option (Node v) → Option (Node v)
  unfolding Poll.stop
  stop_poll_loop none = none
  stop_poll_loop (some n) = some (record n { poll_loop = Poll.stop n.poll_loop })

  unfoldable pub stop_watchdog : Option HeartbeatWatchdog → Option HeartbeatWatchdog
  unfolding Watchdog.stop
  stop_watchdog none = none
  stop_watchdog (some d) = some (Watchdog.stop d)

  unfoldable pub stop_election : Option (Node v) → Option (Node v)
  unfolding Election.stop
  stop_election none = none
  stop_election (some n) = some (Election.stop v n).1

  unfoldable pub disconnect_all : Exec (Service v site.Net) (Unit {0})
  unfolding ◌>>=◌
  disconnect_all = do
    on_net site.disconnect_rabbitmq
    on_net site.disconnect_redis
    on_net site.close_mongodb

  module _ (now : Node v → ℕ) (pause : Node v → Node v) where
    abbrev pub seen : Node v → Moment v.Queue
    seen n = record { loop = n.poll_loop; now = now n }

    abbrev pub drained : Option (Node v) → Option (Option (Node v))
    drained none = none
    drained (some n) = some (some n)

    -- The wait, where there is a poll loop; nothing if its fuel did not do.
    unfoldable pub drain_node : Option (Node v) → Option (Option (Node v))
    drain_node none = some none
    drain_node (some n) = drained (drain seen pause 62 30000 n)

    unfoldable pub after_drain :
        Service v site.Net
        → Option (Option (Node v))
        → Option (Result (Unit {0}) × Service v site.Net)
    unfolding stop_election disconnect_all
    after_drain w none = none
    after_drain w (some node) = some (disconnect_all (record w { node = stop_election node }))

    -- While it waits for the jobs in flight the other callbacks run. `stop` of the election does not
    -- throw; where a disconnection throws, the call does.
    unfoldable pub shutdown : Service v site.Net → Option (Result (Unit {0}) × Service v site.Net)
    unfolding stop_poll_loop stop_outbox_poller stop_watchdog drain_node after_drain
    shutdown w =
        after_drain
          (record w { outbox = stop_outbox_poller w.outbox; watchdog = stop_watchdog w.watchdog })
          (drain_node (stop_poll_loop w.node))
