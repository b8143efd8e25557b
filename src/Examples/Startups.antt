-- ===== src/Examples/Startups.antt =====
-- A start over a database that refuses twice, and the end of a leader.
use hyperscale_job_scheduler.Base.{ℕ, ◌+◌, true, false, none, some, [], ◌∷◌, ◌≡◌, refl, ◌⊎◌}
use hyperscale_job_scheduler.Exec.{Message, ok, err}
use hyperscale_job_scheduler.Connections.MongoDb.{Dial, connect_mongodb, disconnect_mongodb}
use hyperscale_job_scheduler.Election.{Node}
use hyperscale_job_scheduler.Startup.{Site, Service, bootstrap_server}
use hyperscale_job_scheduler.Startup.Bootstrap.{IsQuiet, IsUp, bootstrap_server-IsUp}
use hyperscale_job_scheduler.Examples.Elections.{environment, leading_node}
use hyperscale_job_scheduler.Examples.Connecting.{driver, dial}

abbrev site : Site
site = record {
  Net = Dial ℕ;
  database_url = some "mongodb://localhost";
  url_missing = [];
  connect_mongodb = λ url. connect_mongodb driver;
  connect_redis = λ n. (ok tt, n);
  connect_rabbitmq = λ n. (ok tt, n);
  reset_stale_jobs = λ n. (ok 0, n);
  disconnect_rabbitmq = λ n. (ok tt, n);
  disconnect_redis = λ n. (err (1 ∷ []), n);
  close_mongodb = disconnect_mongodb driver;
}

abbrev before : Service environment (Dial ℕ)
before = record {
  net = dial;
  outbox = record { running = false; timer = false };
  watchdog = none;
  node = none;
}

bootstrap_server-IsUp_example :
    let (r, w) = bootstrap_server environment site tt true (λ k. none) 100 before in
    ((u : Unit {0}) × ((r ≡ ok u) × IsUp environment site w))
    ⊎ ((e : Message) × ((r ≡ err e) × IsQuiet environment site w))
bootstrap_server-IsUp_example =
    bootstrap_server-IsUp environment site tt true (λ k. none) 100 before (refl, refl) refl

abbrev running : Service environment (Dial ℕ)
running = record {
  net = dial;
  outbox = record { running = true; timer = true };
  watchdog = some (record { running = true; timer = true });
  node = some leading_node;
}

abbrev now : Node environment → ℕ
now n = n.time

abbrev pause : Node environment → Node environment
pause n = record n { time = n.time + 500 }
