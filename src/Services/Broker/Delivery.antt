-- ===== src/Services/Broker/Delivery.antt =====
-- Which events reach a queue after a connection.
use hyperscale_job_scheduler.Base.{
  ℕ, zero, suc, ◌+◌, ◌-◌, ◌==◌, String, Bool, true, false, ◌↔◌, ◌≡◌, ◌⊎◌, inl, inr, arith, sym, ◌∙◌,
}
use hyperscale_job_scheduler.Exec.{ok, ◌>>◌}
use hyperscale_job_scheduler.Exec.Keeps.{Keeps, Keeps-bind}
use hyperscale_job_scheduler.Exec.Achieves.{
  Achieves, Achieves-first, Achieves-then, Achieves-throw, Achieves-try_catch,
}
use hyperscale_job_scheduler.Services.Events.{RoutingKey}
use hyperscale_job_scheduler.Services.Broker.{
  MessageBroker, QueueOptions, Bus, scheduler_exchange, on_net, set_channel, add_queue,
  assert_topology, connect_once, wait_before_retry, connect_from, connect_rabbitmq, max_retries,
}
use hyperscale_job_scheduler.Services.Broker.Routes.{
  Routing, Delivers, to_completed, to_failed, to_scheduled, to_heartbeat, Used, completed, failed,
  dead, scheduled, heartbeat, Sorted, Binds, SameRoutes,
}
use hyperscale_job_scheduler.Services.Broker.Attempts.{
  OfRoutes, OnBus, Keeps-add_queue, Keeps-connect_rabbitmq,
}

module _ (b : MessageBroker) (g : Routing b) where
  open b use {Net, bind_queue}
  open g use {routes, bind_adds, bind_keeps, bind_binds}

  Used-Delivers :
      {p : String} {j : RoutingKey} {e : String}
      → Used p e j
      → e ≡ scheduler_exchange
      → Delivers j p
  Used-Delivers completed h = to_completed
  Used-Delivers failed h = to_failed
  Used-Delivers dead h = absurd (cc)
  Used-Delivers scheduled h = to_scheduled
  Used-Delivers heartbeat h = to_heartbeat

  sorted_on :
      (p e : String) (j k : RoutingKey) (q : String) {old : Bool}
      → Used p e j
      → (old ≡ true → Delivers k q)
      → (old ≡ true) ⊎ ((scheduler_exchange ≡ e) × (k ≡ j) × (q ≡ p))
      → Delivers k q
  sorted_on p e j k q u h (inl r) = h r
  sorted_on p e j k q u h (inr (x, y, z)) = rw (y, z) (Used-Delivers u (sym x))

  Sorted-OfRoutes : OfRoutes b g (Sorted b g)
  unfolding SameRoutes Sorted
  Sorted-OfRoutes = record {
    stable = λ n n' same h k q p. h k q (sym (same scheduler_exchange k q) ∙ p);
    bound = λ p e j u n h k q r.
        sorted_on p e j k q u (h k q) (bind_adds p e j n scheduler_exchange k q r);
  }

  Binds-OfRoutes : (k : RoutingKey) (q : String) → OfRoutes b g (Binds b g k q)
  unfolding SameRoutes Binds
  Binds-OfRoutes k q = record {
    stable = λ n n' same p. same scheduler_exchange k q ∙ p;
    bound = λ p e j u n r. bind_keeps p e j n scheduler_exchange k q r;
  }

  Achieves-add_queue :
      (o : QueueOptions) (k : RoutingKey)
      → Achieves (Binds b g k o.name) (add_queue b o scheduler_exchange k)
  unfolding add_queue Binds
  Achieves-add_queue o k =
      Achieves-then (b.assert_queue o) (λ _. bind_queue o.name scheduler_exchange k)
        (λ _. record { achieved = λ n x e. bind_binds o.name scheduler_exchange k n e })

  kept_add :
      (k : RoutingKey) (q : String) (o : QueueOptions) (e : String) (j : RoutingKey)
      → Used o.name e j
      → Keeps (Binds b g k q) (add_queue b o e j)
  kept_add k q o e j u = Keeps-add_queue b g (Binds b g k q) (Binds-OfRoutes k q) o e j u

  ruleset routing = (
    Achieves-first, Achieves-then, Achieves-add_queue, Keeps-bind, kept_add, completed, failed,
    dead, scheduled, heartbeat,
  )

  Achieves-assert_topology :
      (k : RoutingKey) (q : String) → Delivers k q → Achieves (Binds b g k q) (assert_topology b)
  unfolding assert_topology
  Achieves-assert_topology _ _ to_completed = search routing depth 12
  Achieves-assert_topology _ _ to_failed = search routing depth 12
  Achieves-assert_topology _ _ to_scheduled = search routing depth 12
  Achieves-assert_topology _ _ to_heartbeat = search routing depth 12

  BusBinds : RoutingKey → String → Bus Net → Type 0
  BusBinds k q = OnBus b g (Binds b g k q) (Binds-OfRoutes k q)

  Achieves-on_net :
      (k : RoutingKey) (q : String)
      → Delivers k q
      → Achieves (BusBinds k q) (on_net b (assert_topology b))
  unfolding BusBinds OnBus
  Achieves-on_net k q d = record {
    achieved = λ bus x e. (Achieves-assert_topology k q d).achieved bus.net x e;
  }

  Achieves-connect_once :
      (k : RoutingKey) (q : String) → Delivers k q → Achieves (BusBinds k q) (connect_once b)
  unfolding connect_once
  Achieves-connect_once k q d =
      Achieves-then (on_net b b.open_channel)
        (λ _. set_channel b true >> on_net b (assert_topology b))
        (λ _.
          Achieves-then (set_channel b true) (λ _. on_net b (assert_topology b))
            (λ _. Achieves-on_net k q d))

  -- An attempt that is not the last, or the last, which throws where it fails.
  Achieves-connect_from :
      (k : RoutingKey) (q : String)
      → Delivers k q
      → (left attempt : ℕ) → suc left + attempt ≡ max_retries
      → Achieves (BusBinds k q) (connect_from b (suc left) attempt)
  unfolding connect_from
  Achieves-connect_from k q d zero attempt e =
      let last : (attempt == max_retries - 1) ≡ true = ground arith in
      Achieves-try_catch (connect_once b) _ (Achieves-connect_once k q d)
        (λ m. rw last (Achieves-throw m))
  Achieves-connect_from k q d (suc left) attempt e =
      let early : (attempt == max_retries - 1) ≡ false = ground arith in
      Achieves-try_catch (connect_once b) _ (Achieves-connect_once k q d) (λ m. rw early (
        Achieves-then (wait_before_retry b attempt) (λ _. connect_from b (suc left) (attempt + 1))
          (λ _. Achieves-connect_from k q d left (attempt + 1) (omega arith))))

  -- After a connection that returned to a broker that had no binding of the scheduler's exchange, an
  -- event of this kind that is sent to this exchange reaches this queue exactly where they are
  -- job.completed, job.failed, job.scheduled or job.heartbeat and the queue of that name. So the events
  -- job.dead, job.claimed, job.retrying and job.cancelled reach none.
  pub connect_rabbitmq-Delivers :
      (bus : Bus Net)
      → ((k : RoutingKey) (q : String) → routes bus.net scheduler_exchange k q ≡ false)
      → (connect_rabbitmq b bus).0 ≡ ok tt
      → (k : RoutingKey) (q : String)
      → (routes (connect_rabbitmq b bus).1.net scheduler_exchange k q ≡ true) ↔ Delivers k q
  unfolding connect_rabbitmq OnBus Sorted BusBinds Binds
  connect_rabbitmq-Delivers bus fresh returned k q = (
    (Keeps-connect_rabbitmq b g (Sorted b g) Sorted-OfRoutes).holds bus
        (λ j p h. absurd (ground (arith, fresh j p))) k q,
    λ d. (Achieves-connect_from k q d 9 0 (omega arith)).achieved bus tt returned,
  )
