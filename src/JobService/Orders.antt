-- ===== src/JobService/Orders.antt =====
-- The keys of abandonment jobs: src/shared/constants/JOB_DEFINITIONS.ts reads `cartId`, a field that
-- OrderAbandonmentPayload of src/shared/types/index.ts does not have.
use hyperscale_job_scheduler.Base.{ℕ, String, Option, [], ◌∷◌, ◌≡◌, refl}
use hyperscale_job_scheduler.Exec.{Message, ok}
use hyperscale_job_scheduler.Types.{Job, order_abandonment}
use hyperscale_job_scheduler.Services.{Services, World}
use hyperscale_job_scheduler.JobService.{CreateJobRequest, job_id_of, enqueue}
use hyperscale_job_scheduler.JobService.Definitions.{idempotency_key, typed, key_suffix, printed}
use hyperscale_job_scheduler.JobService.Enqueue.{enqueue_again}

-- A request whose payload has the fields of OrderAbandonmentPayload.
abbrev pub order_request : String → String → String → String → ℕ → CreateJobRequest
order_request order user stage tenant at = record {
  job_type = order_abandonment;
  tenant_id = tenant;
  scheduled_at = at;
  payload = ("orderId", order) ∷ ("userId", user) ∷ ("stage", stage) ∷ [];
  cron_expression = Option.none;
}

order_keys_collide :
    (order order' user user' stage tenant tenant' uuid uuid' : String) (at at' : ℕ)
    → job_id_of (order_request order user stage tenant at) uuid
      ≡ job_id_of (order_request order' user' stage tenant' at') uuid'
unfolding job_id_of idempotency_key typed key_suffix printed
order_keys_collide order order' user user' stage tenant tenant' uuid uuid' at at' = refl

-- Once an abandonment job of one order is enqueued, a request for any other order, user, tenant and
-- time at the same stage that returns gives back the job of the first order.
pub second_order_dropped :
    (s : Services) (order order' user user' stage tenant tenant' uuid uuid' : String) (at at' : ℕ)
    (unknown : Message) (w : World s) (job job' : Job)
    → (enqueue s (order_request order user stage tenant at) uuid unknown w).0 ≡ ok job
    → (enqueue s
        (order_request order' user' stage tenant' at')
        uuid'
        unknown
        (enqueue s (order_request order user stage tenant at) uuid unknown w).1).0
      ≡ ok job'
    → job' ≡ job
second_order_dropped s order order' user user' stage tenant tenant' uuid uuid' at at' unknown w job
      job' first second =
    (enqueue_again s (order_request order user stage tenant at)
      (order_request order' user' stage tenant' at') uuid uuid' unknown w job job'
      (order_keys_collide order order' user user' stage tenant tenant' uuid uuid' at at') first
      second).0
