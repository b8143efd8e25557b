-- ===== src/Examples/Bindings.antt =====
-- A broker in memory, by its bindings.
use hyperscale_job_scheduler.Base.{
  String, Bool, true, false, ◌&&◌, ◌||◌, str_eq, eq_iff, ◌≡◌, refl, ◌⊎◌, inl, inr, ◌↔◌, arith,
  Bool-cases,
}
use hyperscale_job_scheduler.Exec.{ok}
use hyperscale_job_scheduler.Services.Events.{RoutingKey}
use hyperscale_job_scheduler.Services.Broker.{MessageBroker, Bus, connect_rabbitmq}
use hyperscale_job_scheduler.Services.Broker.Routes.{Routing, Delivers}
use hyperscale_job_scheduler.Services.Broker.Delivery.{connect_rabbitmq-Delivers}

RoutingKey-discrete : Discrete RoutingKey
RoutingKey-discrete = hlevel

abbrev key_eq : RoutingKey → RoutingKey → Bool
key_eq k j = elim (RoutingKey-discrete k j) [ yes e ↦ true | no e ↦ false ]

key_eq_sound : (k j : RoutingKey) → key_eq k j ≡ true → k ≡ j
key_eq_sound k j h = ground arith

key_eq_self : (k : RoutingKey) → key_eq k k ≡ true
key_eq_self k = ground arith

abbrev Bindings : Type 0
Bindings = String → RoutingKey → String → Bool

abbrev bind : String → String → RoutingKey → Bindings → Bindings
bind p e j n x k q = n x k q || (str_eq x e && (key_eq k j && str_eq q p))

bind_adds_lem :
    (p e : String) (j : RoutingKey) (n : Bindings) (x : String) (k : RoutingKey) (q : String)
    → bind p e j n x k q ≡ true
    → (n x k q ≡ true) ⊎ ((x ≡ e) × (k ≡ j) × (q ≡ p))
bind_adds_lem p e j n x k q h = elim (Bool-cases (n x k q)) [
  | inl old ↦ inl old
  | inr new ↦
      inr (ground (arith, eq_iff x e), key_eq_sound k j (ground arith), ground (arith, eq_iff q p))
]

bind_keeps_lem :
    (p e : String) (j : RoutingKey) (n : Bindings) (x : String) (k : RoutingKey) (q : String)
    → n x k q ≡ true
    → bind p e j n x k q ≡ true
bind_keeps_lem p e j n x k q h = rw h refl

bind_binds_lem : (p e : String) (j : RoutingKey) (n : Bindings) → bind p e j n e j p ≡ true
bind_binds_lem p e j n = ground (arith, eq_iff e e, eq_iff p p, key_eq_self j)

abbrev bound_broker : MessageBroker
bound_broker = record {
  Net = Bindings;
  open_channel = λ n. (ok tt, n);
  assert_exchange = λ exchange n. (ok tt, n);
  assert_queue = λ options n. (ok tt, n);
  bind_queue = λ queue exchange key n. (ok tt, bind queue exchange key n);
  jitter = λ n. (ok 7, n);
  pause = λ ms n. (ok tt, n);
  send = λ key e n. (ok tt, n);
}

abbrev by_binding : Routing bound_broker
by_binding = record {
  routes = λ n. n;
  open_channel-routes = λ n x k q. refl;
  assert_exchange-routes = λ e n x k q. refl;
  assert_queue-routes = λ o n x k q. refl;
  jitter-routes = λ n x k q. refl;
  pause-routes = λ ms n x k q. refl;
  bind_adds = bind_adds_lem;
  bind_keeps = bind_keeps_lem;
  bind_binds = λ p e j n h. bind_binds_lem p e j n;
}

abbrev unbound : Bus Bindings
unbound = record { channel = false; net = λ x k q. false }

connect_rabbitmq-Delivers_example :
    ((connect_rabbitmq bound_broker unbound).1.net "scheduler.exchange" RoutingKey.job_dead
        "scheduler.jobs.dead.queue"
      ≡ true)
    ↔ Delivers RoutingKey.job_dead "scheduler.jobs.dead.queue"
unfolding connect_rabbitmq
connect_rabbitmq-Delivers_example =
    connect_rabbitmq-Delivers bound_broker by_binding unbound (λ k q. refl) refl RoutingKey.job_dead
      "scheduler.jobs.dead.queue"
