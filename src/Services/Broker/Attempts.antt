-- ===== src/Services/Broker/Attempts.antt =====
-- What a connection to the broker keeps of the routes.
use hyperscale_job_scheduler.Base.{ℕ, zero, suc, ◌+◌, ◌-◌, ◌==◌, String, Bool, if◌then◌else◌}
use hyperscale_job_scheduler.Exec.{Exec, throw, ◌>>◌}
use hyperscale_job_scheduler.Exec.Keeps.{
  Keeps, Keeps-bind, Keeps-try_catch, Keeps-if, Keeps-throw, keeping,
}
use hyperscale_job_scheduler.Services.Events.{RoutingKey}
use hyperscale_job_scheduler.Services.Broker.{
  MessageBroker, QueueOptions, Bus, on_net, set_channel, add_queue, assert_topology, connect_once,
  wait_before_retry, connect_from, connect_rabbitmq, max_retries,
}
use hyperscale_job_scheduler.Services.Broker.Routes.{
  Routing, Used, completed, failed, dead, scheduled, heartbeat, SameRoutes,
}

module _ (b : MessageBroker) (g : Routing b) (Inv : b.Net → Type 0) where
  open b use {Net, open_channel, assert_exchange, assert_queue, bind_queue, jitter, pause}
  open g use {
    open_channel-routes, assert_exchange-routes, assert_queue-routes, jitter-routes, pause-routes,
  }

  -- What only speaks of the routes, and is kept by the bindings of the topology, is kept by a
  -- connection, whether it returns or throws.
  pub record OfRoutes : Type 0 where
    pub stable : (n n' : Net) → SameRoutes b g n n' → Inv n → Inv n'
    pub bound :
        (p e : String) (j : RoutingKey)
        → Used p e j
        → (n : Net) → Inv n
        → Inv (bind_queue p e j n).1

  module _ (o : OfRoutes) where
    open o use {stable, bound}

    pub Keeps-assert_exchange : (x : String) → Keeps Inv (assert_exchange x)
    unfolding SameRoutes
    Keeps-assert_exchange x = record {
      holds = λ n. stable n (assert_exchange x n).1 (assert_exchange-routes x n);
    }

    pub Keeps-add_queue :
        (options : QueueOptions) (e : String) (j : RoutingKey)
        → Used options.name e j
        → Keeps Inv (add_queue b options e j)
    unfolding add_queue SameRoutes
    Keeps-add_queue options e j u =
        Keeps-bind (assert_queue options) (λ _. bind_queue options.name e j)
          (record {
            holds = λ n. stable n (assert_queue options n).1 (assert_queue-routes options n);
          })
          (λ _. record { holds = bound options.name e j u })

    pub Keeps-assert_topology : Keeps Inv (assert_topology b)
    unfolding assert_topology
    Keeps-assert_topology =
        search
          (
            keeping, Keeps-assert_exchange, Keeps-add_queue, completed, failed, dead, scheduled,
            heartbeat,
          )
          depth 12

    unfoldable pub OnBus : Bus Net → Type 0
    OnBus bus = Inv bus.net

    pub Keeps-on_net : {A : Type 0} (m : Exec Net A) → Keeps Inv m → Keeps OnBus (on_net b m)
    unfolding OnBus
    Keeps-on_net m kept = record { holds = λ bus. kept.holds bus.net }

    pub Keeps-set_channel : (c : Bool) → Keeps OnBus (set_channel b c)
    unfolding OnBus
    Keeps-set_channel c = record { holds = λ bus h. h }

    pub Keeps-open_channel : Keeps Inv open_channel
    unfolding SameRoutes
    Keeps-open_channel = record { holds = λ n. stable n (open_channel n).1 (open_channel-routes n) }

    pub Keeps-jitter : Keeps Inv jitter
    unfolding SameRoutes
    Keeps-jitter = record { holds = λ n. stable n (jitter n).1 (jitter-routes n) }

    pub Keeps-pause : (ms : ℕ) → Keeps Inv (pause ms)
    unfolding SameRoutes
    Keeps-pause ms = record { holds = λ n. stable n (pause ms n).1 (pause-routes ms n) }

    ruleset connecting = (
      keeping, Keeps-on_net, Keeps-set_channel, Keeps-open_channel, Keeps-jitter, Keeps-pause,
      Keeps-assert_topology,
    )

    pub Keeps-connect_once : Keeps OnBus (connect_once b)
    unfolding connect_once
    Keeps-connect_once = search connecting

    pub Keeps-wait_before_retry : (attempt : ℕ) → Keeps OnBus (wait_before_retry b attempt)
    unfolding wait_before_retry
    Keeps-wait_before_retry attempt = search connecting

    pub Keeps-connect_from : (left attempt : ℕ) → Keeps OnBus (connect_from b left attempt)
    unfolding connect_from
    Keeps-connect_from zero attempt = search connecting
    Keeps-connect_from (suc left) attempt =
        let again = Keeps-connect_from left (attempt + 1) in
        Keeps-try_catch (connect_once b)
          (λ e.
            if attempt == max_retries - 1
            then throw e
            else (wait_before_retry b attempt >> connect_from b left (attempt + 1)))
          Keeps-connect_once
          (λ e.
            Keeps-if (attempt == max_retries - 1) (throw e)
              (wait_before_retry b attempt >> connect_from b left (attempt + 1)) (Keeps-throw e)
              (Keeps-bind (wait_before_retry b attempt) (λ _. connect_from b left (attempt + 1))
                (Keeps-wait_before_retry attempt) (λ _. again)))

    pub Keeps-connect_rabbitmq : Keeps OnBus (connect_rabbitmq b)
    unfolding connect_rabbitmq
    Keeps-connect_rabbitmq = Keeps-connect_from max_retries 0
