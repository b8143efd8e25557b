-- ===== src/Examples/Enqueues.antt =====
-- The job service over the in-memory services: abandonment jobs of two orders, and a cancelled payout.
use hyperscale_job_scheduler.Base.{false, none, some, [], ◌∷◌, ◌≡◌, refl}
use hyperscale_job_scheduler.Exec.{ok}
use hyperscale_job_scheduler.Types.{Job, JobStatus, dead, order_abandonment, payout_batch}
use hyperscale_job_scheduler.Queue.SortedSets.{has}
use hyperscale_job_scheduler.Queue.RedisJobQueue.{queue_key}
use hyperscale_job_scheduler.Queue.RedisJobQueue
use hyperscale_job_scheduler.Services.{World, on_jobs, on_sets, on_bus, on_clock}
use hyperscale_job_scheduler.Services.Broker.{publish_to_exchange}
use hyperscale_job_scheduler.Execution.Publisher.{publish_job_scheduled, publish_job_cancelled}
use hyperscale_job_scheduler.Jobs.Update.{returned, pre_find_one_and_update}
use hyperscale_job_scheduler.Jobs.Repository.{create_job, cancel_job, cancel_filter, cancel_update}
use hyperscale_job_scheduler.JobService.{CreateJobRequest, enqueue, cancel, job_id_of}
use hyperscale_job_scheduler.JobService.Definitions.{idempotency_key, typed}
use hyperscale_job_scheduler.JobService.Enqueue.{IsEnqueued, enqueue-IsEnqueued, enqueue_again}
use hyperscale_job_scheduler.JobService.Orders.{order_request, second_order_dropped}
use hyperscale_job_scheduler.JobService.Cancel.{cancel_lem}
use hyperscale_job_scheduler.Examples.MemoryServices.{memory_services, world, payout}

abbrev empty : World memory_services
empty = record world { jobs = λ i. none }

abbrev first_order : CreateJobRequest
first_order = order_request "o1" "u1" "REMINDER" "t" 50

abbrev second_order : CreateJobRequest
second_order = order_request "o2" "u2" "REMINDER" "t" 90

abbrev first_job : Job
first_job = record payout {
  job_id = "ORDER_ABANDONMENT:undefined:REMINDER";
  job_type = order_abandonment;
  tenant_id = "t";
  priority = 2;
  scheduled_at = 50;
  next_run_at = 50;
  max_attempts = 5;
  payload =
      ("orderId", "o1")
      ∷ ("userId", "u1")
      ∷ ("stage", "REMINDER")
      ∷ ("type", "ORDER_ABANDONMENT")
      ∷ [];
}

first_returns : (enqueue memory_services first_order "x" [] empty).0 ≡ ok first_job
unfolding enqueue on_jobs create_job on_sets RedisJobQueue.enqueue publish_job_scheduled on_bus
    publish_to_exchange idempotency_key typed
first_returns = refl

abbrev once : World memory_services
once = (enqueue memory_services first_order "x" [] empty).1

second_returns : (enqueue memory_services second_order "y" [] once).0 ≡ ok first_job
unfolding enqueue on_jobs create_job on_sets RedisJobQueue.enqueue publish_job_scheduled on_bus
    publish_to_exchange idempotency_key typed
second_returns = refl

same_key : job_id_of first_order "x" ≡ job_id_of second_order "y"
unfolding job_id_of typed idempotency_key
same_key = refl

enqueue-IsEnqueued_example : IsEnqueued memory_services first_order "x" empty once first_job
enqueue-IsEnqueued_example =
    enqueue-IsEnqueued memory_services first_order "x" [] empty first_job first_returns

enqueue_again_example :
    (first_job ≡ first_job)
    × (memory_services.jobs.doc
          (enqueue memory_services second_order "y" [] once).1.jobs
          (job_id_of first_order "x")
        ≡ some first_job)
enqueue_again_example =
    enqueue_again memory_services first_order second_order "x" "y" [] empty first_job first_job
      same_key first_returns second_returns

second_order_dropped_example : first_job ≡ first_job
second_order_dropped_example =
    second_order_dropped memory_services "o1" "o2" "u1" "u2" "REMINDER" "t" "t" "x" "y" 50 90 []
      empty first_job first_job first_returns second_returns

cancel_returns :
    (cancel memory_services "a" "ops" 70 world).0 ≡ ok (some (record payout { status = dead }))
unfolding cancel on_jobs cancel_job returned cancel_filter on_sets RedisJobQueue.remove on_clock
    publish_job_cancelled on_bus publish_to_exchange pre_find_one_and_update cancel_update
cancel_returns = refl

cancel_lem_example :
    (◌≡◌ {A = JobStatus} dead dead)
    × (memory_services.jobs.doc (cancel memory_services "a" "ops" 70 world).1.jobs "a"
        ≡ some (record payout { status = dead }))
    × (has "a" ((cancel memory_services "a" "ops" 70 world).1.sets (queue_key payout_batch))
        ≡ false)
cancel_lem_example =
    cancel_lem memory_services "a" "ops" 70 world (record payout { status = dead }) cancel_returns
