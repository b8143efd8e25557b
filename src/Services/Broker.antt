-- ===== src/Services/Broker.antt =====
-- The connection of src/infra/config/rabbitmq.consumer.ts to the message broker. The driver's calls
-- are parameters: opening a connection with its channel, asserting an exchange, a queue or a binding, and
-- publishing.
pub mod Routes
pub mod Attempts
pub mod Delivery
use hyperscale_job_scheduler.Base.{
  ℕ, zero, suc, ◌+◌, ◌-◌, ◌*◌, ◌^◌, min, String, Bool, true, false, Option, none, some, ◌==◌,
  if◌then◌else◌,
}
use hyperscale_job_scheduler.Exec.{Exec, Message, ok, pure, throw, try_catch, ◌>>=◌, ◌>>◌}
use hyperscale_job_scheduler.Services.Events.{Event, RoutingKey}

-- What assertQueue takes: the options that the source sets, beside `durable` and the queue type.
pub record QueueOptions : Type 0 where
  pub name : String
  pub delivery_limit : Option ℕ
  pub dead_letter : Option (String × RoutingKey)
  pub message_ttl : Option ℕ

pub record MessageBroker : Type 1 where
  pub Net : Type 0
  -- amqp.connect and connection.createChannel
  pub open_channel : Exec Net (Unit {0})
  pub assert_exchange : String → Exec Net (Unit {0})
  pub assert_queue : QueueOptions → Exec Net (Unit {0})
  -- channel.bindQueue(queue, exchange, key)
  pub bind_queue : String → String → RoutingKey → Exec Net (Unit {0})
  -- The whole milliseconds of `Math.random() * 1_000`, and a timeout of so many.
  pub jitter : Exec Net ℕ
  pub pause : ℕ → Exec Net (Unit {0})
  pub send : RoutingKey → Event → Exec Net (Unit {0})

abbrev pub scheduler_exchange : String
scheduler_exchange = "scheduler.exchange"

abbrev pub scheduler_dlx : String
scheduler_dlx = "scheduler.dlx"

-- QUEUES
unfoldable pub queue_of : RoutingKey → Option String
queue_of RoutingKey.job_completed = some "scheduler.jobs.completed.queue"
queue_of RoutingKey.job_failed = some "scheduler.jobs.failed.queue"
queue_of RoutingKey.job_dead = some "scheduler.jobs.dead.queue"
queue_of RoutingKey.job_scheduled = some "scheduler.jobs.scheduled.queue"
queue_of RoutingKey.job_heartbeat = some "scheduler.jobs.heartbeat.queue"
queue_of _ = none

abbrev pub max_retries : ℕ
max_retries = 10

abbrev pub base_retry_delay_ms : ℕ
base_retry_delay_ms = 1000

abbrev pub max_retry_delay_ms : ℕ
max_retry_delay_ms = 30000

unfoldable pub retry_delay : ℕ → ℕ
retry_delay attempt = min (base_retry_delay_ms * 2 ^ attempt) max_retry_delay_ms

-- The module's `channel` variable: whether it holds a channel.
pub record Bus (Net : Type 0) : Type 0 where
  pub channel : Bool
  pub net : Net

abbrev plain_queue : String → QueueOptions
plain_queue name = record {
  name = name;
  delivery_limit = none;
  dead_letter = none;
  message_ttl = none;
}

module _ (b : MessageBroker) where
  open b use {Net, open_channel, assert_exchange, assert_queue, bind_queue, jitter, pause, send}

  abbrev pub on_net : {A : Type 0} → Exec Net A → Exec (Bus Net) A
  on_net m bus = let (r, n) = m bus.net in (r, record bus { net = n })

  abbrev pub set_channel : Bool → Exec (Bus Net) (Unit {0})
  set_channel channel bus = (ok tt, record bus { channel = channel })

  -- A queue of these options, bound to an exchange.
  unfoldable pub add_queue : QueueOptions → String → RoutingKey → Exec Net (Unit {0})
  unfolding ◌>>=◌
  add_queue options exchange key = do assert_queue options; bind_queue options.name exchange key

  -- Each queue is written with its name of QUEUES.
  unfoldable pub assert_topology : Exec Net (Unit {0})
  unfolding add_queue ◌>>=◌
  assert_topology = do
    assert_exchange scheduler_exchange
    assert_exchange scheduler_dlx
    add_queue (plain_queue "scheduler.jobs.completed.queue") scheduler_exchange
        RoutingKey.job_completed
    add_queue
        (record (plain_queue "scheduler.jobs.failed.queue") {
          delivery_limit = some 5;
          dead_letter = some (scheduler_dlx, RoutingKey.job_dead);
        })
        scheduler_exchange RoutingKey.job_failed
    add_queue (plain_queue "scheduler.jobs.dead.queue") scheduler_dlx RoutingKey.job_dead
    add_queue (plain_queue "scheduler.jobs.scheduled.queue") scheduler_exchange
        RoutingKey.job_scheduled
    add_queue (record (plain_queue "scheduler.jobs.heartbeat.queue") { message_ttl = some 60000 })
        scheduler_exchange RoutingKey.job_heartbeat

  -- The try block of an attempt. The listener on "close" is `lose_channel`.
  unfoldable pub connect_once : Exec (Bus Net) (Unit {0})
  unfolding assert_topology ◌>>=◌
  connect_once = do on_net open_channel; set_channel true; on_net assert_topology

  unfoldable pub lose_channel : Exec (Bus Net) (Unit {0})
  lose_channel = set_channel false

  unfoldable pub wait_before_retry : ℕ → Exec (Bus Net) (Unit {0})
  unfolding retry_delay ◌>>=◌
  wait_before_retry attempt = do
    jitter ← on_net jitter
    on_net (pause (retry_delay attempt + jitter))

  -- The attempts from this one on, as many as are left.
  unfoldable pub connect_from : ℕ → ℕ → Exec (Bus Net) (Unit {0})
  unfolding connect_once wait_before_retry try_catch ◌>>=◌
  connect_from zero attempt = pure tt
  connect_from (suc left) attempt =
      let again = connect_from left (attempt + 1) in
      try_catch connect_once
        (λ e. if attempt == max_retries - 1 then throw e else (do wait_before_retry attempt; again))

  unfoldable pub connect_rabbitmq : Exec (Bus Net) (Unit {0})
  unfolding connect_from
  connect_rabbitmq = connect_from max_retries 0

  unfoldable pub publish_to_exchange : RoutingKey → Event → Exec (Bus Net) (Unit {0})
  unfolding connect_rabbitmq ◌>>=◌
  publish_to_exchange key event bus =
      (do (if bus.channel then pure tt else connect_rabbitmq); on_net (send key event)) bus

  -- `channel.close` is a parameter.
  unfoldable pub disconnect_rabbitmq : Exec Net (Unit {0}) → Exec (Bus Net) (Unit {0})
  unfolding try_catch ◌>>=◌
  disconnect_rabbitmq close bus =
      try_catch (if bus.channel then (do on_net close; set_channel false) else pure tt)
        (λ e. pure tt) bus

  -- getRabbitMQChannel, which throws where there is none.
  unfoldable pub get_rabbitmq_channel : Message → Exec (Bus Net) (Unit {0})
  unfolding throw pure
  get_rabbitmq_channel not_ready bus = (if bus.channel then pure tt else throw not_ready) bus
