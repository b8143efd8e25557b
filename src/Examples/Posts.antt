-- ===== src/Examples/Posts.antt =====
-- Two executions of one payout job with the handlers of the repository, over a client that keeps a list
-- of its requests.
use hyperscale_job_scheduler.Base.{some, List, [], ◌∷◌, ◌≡◌, ◌⊎◌}
use hyperscale_job_scheduler.Exec.{ok}
use hyperscale_job_scheduler.Types.{Job}
use hyperscale_job_scheduler.Jobs.Repository.Lifecycle.{Write, perform_all}
use hyperscale_job_scheduler.Services.{World}
use hyperscale_job_scheduler.Execution.Executor.{Process}
use hyperscale_job_scheduler.Workers.{Post, HttpClient}
use hyperscale_job_scheduler.Workers.Wiring.{wired}
use hyperscale_job_scheduler.Workers.Calls.{request_for}
use hyperscale_job_scheduler.Workers.Once.{ran, Claimed, execute_twice_posts_once}
use hyperscale_job_scheduler.Examples.MemoryJobs.{memory_jobs}
use hyperscale_job_scheduler.Examples.MemoryServices.{
  memory_services, memory_clock, worker, payout, world,
}

abbrev client : HttpClient
client = record {
  Net = List Post;
  clock = memory_clock;
  post = λ request n. (ok tt, request ∷ n);
  env = λ name. name;
}

abbrev texts : Process (wired memory_services client)
texts = record {
  handlers = λ t. some (λ j d. (ok tt, d));
  instance_id = worker.instance_id;
  heartbeat_json = worker.heartbeat_json;
  stack_of = worker.stack_of;
  no_handler = worker.no_handler;
}

abbrev online : World (wired memory_services client)
online = record {
  jobs = world.jobs;
  sets = world.sets;
  letters = world.letters;
  audit = world.audit;
  keys = world.keys;
  bus = world.bus;
  time = world.time;
  remote = record { net = []; time = 100 };
}

abbrev history : List Write
history = Write.completes "a" 1 150 150 ∷ Write.resets 5 200 ∷ []

abbrev first : World (wired memory_services client)
first = ran memory_services client texts payout online

abbrev between : World (wired memory_services client)
between = record first { jobs = perform_all memory_jobs history first.jobs }

abbrev requests : List Post
requests = (ran memory_services client texts payout between).remote.net

execute_twice_posts_once_example :
    (requests ≡ [])
    ⊎ ((j : Job) × (Claimed memory_services client texts payout online j
          ⊎ Claimed memory_services client texts payout between j)
        × (requests ≡ request_for client j.job_type j ∷ []))
execute_twice_posts_once_example =
    execute_twice_posts_once memory_services client texts payout history online
