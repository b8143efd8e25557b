-- ===== src/Services/Broker/Routes.antt =====
-- Which events reach a queue.
use hyperscale_job_scheduler.Base.{ℕ, String, Bool, true, ◌≡◌, ◌⊎◌}
use hyperscale_job_scheduler.Exec.{ok}
use hyperscale_job_scheduler.Services.Events.{RoutingKey}
use hyperscale_job_scheduler.Services.Broker.{
  MessageBroker, QueueOptions, scheduler_exchange, scheduler_dlx,
}

-- Which queues a message to an exchange reaches: those bound to the exchange with its key, since no
-- key has a wildcard. Only bindQueue binds.
pub record Routing (b : MessageBroker) : Type 1 where
  pub routes : b.Net → String → RoutingKey → String → Bool
  pub open_channel-routes :
      (n : b.Net) (x : String) (k : RoutingKey) (q : String)
      → routes (b.open_channel n).1 x k q ≡ routes n x k q
  pub assert_exchange-routes :
      (e : String) (n : b.Net) (x : String) (k : RoutingKey) (q : String)
      → routes (b.assert_exchange e n).1 x k q ≡ routes n x k q
  pub assert_queue-routes :
      (o : QueueOptions) (n : b.Net) (x : String) (k : RoutingKey) (q : String)
      → routes (b.assert_queue o n).1 x k q ≡ routes n x k q
  pub jitter-routes :
      (n : b.Net) (x : String) (k : RoutingKey) (q : String)
      → routes (b.jitter n).1 x k q ≡ routes n x k q
  pub pause-routes :
      (ms : ℕ) (n : b.Net) (x : String) (k : RoutingKey) (q : String)
      → routes (b.pause ms n).1 x k q ≡ routes n x k q
  pub bind_adds :
      (p e : String) (j : RoutingKey) (n : b.Net) (x : String) (k : RoutingKey) (q : String)
      → routes (b.bind_queue p e j n).1 x k q ≡ true
      → (routes n x k q ≡ true) ⊎ ((x ≡ e) × (k ≡ j) × (q ≡ p))
  pub bind_keeps :
      (p e : String) (j : RoutingKey) (n : b.Net) (x : String) (k : RoutingKey) (q : String)
      → routes n x k q ≡ true
      → routes (b.bind_queue p e j n).1 x k q ≡ true
  pub bind_binds :
      (p e : String) (j : RoutingKey) (n : b.Net)
      → (b.bind_queue p e j n).0 ≡ ok tt
      → routes (b.bind_queue p e j n).1 e j p ≡ true

-- The queue for the events of a kind that are sent to the scheduler's exchange.
pub data Delivers : RoutingKey → String → Type 0 where
  to_completed : Delivers RoutingKey.job_completed "scheduler.jobs.completed.queue"
  to_failed : Delivers RoutingKey.job_failed "scheduler.jobs.failed.queue"
  to_scheduled : Delivers RoutingKey.job_scheduled "scheduler.jobs.scheduled.queue"
  to_heartbeat : Delivers RoutingKey.job_heartbeat "scheduler.jobs.heartbeat.queue"

module _ (b : MessageBroker) (g : Routing b) where
  open b use {Net, open_channel, assert_exchange, assert_queue, bind_queue, jitter, pause}
  open g use {
    routes, open_channel-routes, assert_exchange-routes, assert_queue-routes, jitter-routes,
    pause-routes, bind_adds, bind_keeps, bind_binds,
  }

  -- Every event reaches the queue of its kind only.
  unfoldable pub Sorted : Net → Type 0
  Sorted n = (k : RoutingKey) (q : String) → routes n scheduler_exchange k q ≡ true → Delivers k q

  unfoldable pub Binds : RoutingKey → String → Net → Type 0
  Binds k q n = routes n scheduler_exchange k q ≡ true

  unfoldable pub SameRoutes : Net → Net → Type 0
  SameRoutes n n' = (x : String) (k : RoutingKey) (q : String) → routes n' x k q ≡ routes n x k q

-- The bindings of the topology.
pub data Used : String → String → RoutingKey → Type 0 where
  completed : Used "scheduler.jobs.completed.queue" scheduler_exchange RoutingKey.job_completed
  failed : Used "scheduler.jobs.failed.queue" scheduler_exchange RoutingKey.job_failed
  dead : Used "scheduler.jobs.dead.queue" scheduler_dlx RoutingKey.job_dead
  scheduled : Used "scheduler.jobs.scheduled.queue" scheduler_exchange RoutingKey.job_scheduled
  heartbeat : Used "scheduler.jobs.heartbeat.queue" scheduler_exchange RoutingKey.job_heartbeat
