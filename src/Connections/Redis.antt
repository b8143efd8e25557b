-- ===== src/Connections/Redis.antt =====
-- The client of Redis of src/infra/config/redis.ts: the module's two variables, and the calls that read and
-- write them. The driver is a parameter; the listeners that it calls write `isReady`.
use hyperscale_job_scheduler.Base.{
  ℕ, ◌+◌, ◌*◌, ◌/◌, ◌^◌, min, String, Bool, true, false, Option, none, some, leb, str_eq,
  if◌then◌else◌,
}
use hyperscale_job_scheduler.Exec.{Exec, Message, ok, pure, throw, ◌>>=◌, ◌>>◌}

-- The network, and `isReady`.
pub record Wire (Net : Type 0) : Type 0 where
  pub net : Net
  pub is_ready : Bool

-- The calls may run the listeners below. A client is lazy: it does not connect by itself.
pub record RedisDriver : Type 1 where
  pub Net : Type 0
  pub Client : Type 0
  -- process.env.REDIS_URL
  pub url : Option String
  pub url_missing : Message
  pub not_initialized : Message
  pub new_client : String → Exec (Wire Net) Client
  pub connect : Client → Exec (Wire Net) (Unit {0})
  -- TIME: the seconds and the microseconds of the reply.
  pub server_time : Client → Exec (Wire Net) (ℕ × ℕ)
  pub quit : Client → Exec (Wire Net) (Unit {0})

-- The listeners for ready, and for error, close and end.
unfoldable pub on_ready : {Net : Type 0} → Wire Net → Wire Net
on_ready w = record w { is_ready = true }

unfoldable pub on_lost : {Net : Type 0} → Wire Net → Wire Net
on_lost w = record w { is_ready = false }

-- retryStrategy: the delay before an attempt, with the whole milliseconds of `Math.random() * 500`.
unfoldable pub retry_strategy : ℕ → ℕ → Option ℕ
retry_strategy attempt jitter =
    if leb 10 attempt then none else some (min (1000 * 2 ^ attempt) 30000 + jitter)

pub record RedisModule (d : RedisDriver) : Type 0 where
  pub redis_client : Option d.Client
  pub wire : Wire d.Net

module _ (d : RedisDriver) where
  open d use {Client, url, url_missing, not_initialized, new_client, connect, server_time, quit}

  abbrev on_wire : {A : Type 0} → Exec (Wire d.Net) A → Exec (RedisModule d) A
  on_wire m s = let (r, w) = m s.wire in (r, record s { wire = w })

  abbrev set_client : Option Client → Exec (RedisModule d) (Unit {0})
  set_client c s = (ok tt, record s { redis_client = c })

  abbrev set_lost : Exec (RedisModule d) (Unit {0})
  set_lost s = (ok tt, record s { wire = record s.wire { is_ready = false } })

  abbrev created : Option String → Exec (RedisModule d) Client
  created none = throw url_missing
  created (some u) = if str_eq u "" then throw url_missing else on_wire (new_client u)

  unfoldable pub create_redis_client : Exec (RedisModule d) Client
  unfolding throw
  create_redis_client = created url

  -- Whatever client there was is replaced.
  unfoldable pub connect_anew : Exec (RedisModule d) Client
  unfolding create_redis_client ◌>>=◌
  connect_anew = do
    client ← create_redis_client
    set_client (some client)
    on_wire (connect client)
    on_wire (server_time client)
    pure client

  abbrev ready_or_anew : Option Client → Bool → Exec (RedisModule d) Client
  ready_or_anew none ready = connect_anew
  ready_or_anew (some client) ready = if ready then pure client else connect_anew

  unfoldable pub connect_redis : Exec (RedisModule d) Client
  unfolding connect_anew pure
  connect_redis s = ready_or_anew s.redis_client s.wire.is_ready s

  abbrev kept_or_connected : Option Client → Bool → Exec (RedisModule d) Client
  kept_or_connected none ready = connect_redis
  kept_or_connected (some client) ready = if ready then pure client else connect_redis

  unfoldable pub get_redis_client : Exec (RedisModule d) Client
  unfolding connect_redis pure
  get_redis_client s = kept_or_connected s.redis_client s.wire.is_ready s

  abbrev initialized : Option Client → Exec (RedisModule d) Client
  initialized none = throw not_initialized
  initialized (some client) = pure client

  unfoldable pub get_redis_client_sync : Exec (RedisModule d) Client
  unfolding pure throw
  get_redis_client_sync s = initialized s.redis_client s

  abbrev quitting : Option Client → Exec (RedisModule d) (Unit {0})
  quitting none = pure tt
  quitting (some client) = on_wire (quit client) >>= λ _. set_client none >>= λ _. set_lost

  unfoldable pub disconnect_redis : Exec (RedisModule d) (Unit {0})
  unfolding ◌>>=◌ pure
  disconnect_redis s = quitting s.redis_client s

  unfoldable pub get_redis_server_time_ms : Exec (RedisModule d) ℕ
  unfolding get_redis_client ◌>>=◌
  get_redis_server_time_ms = do
    client ← get_redis_client
    reply ← on_wire (server_time client)
    pure (reply.0 * 1000 + reply.1 / 1000)
