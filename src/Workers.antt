-- ===== src/Workers.antt =====
-- The job handlers of src/domains/workers/: each posts once to another service and returns a result. Log
-- lines are left out. axios and the environment are parameters.
pub mod Wiring
pub mod Calls
pub mod Once
use Prim.Native.String.{◌++◌}
use hyperscale_job_scheduler.Base.{ℕ, ◌-◌, String, List, [], ◌∷◌, str_eq, if◌then◌else◌}
use hyperscale_job_scheduler.Exec.{Exec, pure, ◌>>=◌, ◌>>◌}
use hyperscale_job_scheduler.Types.{
  Job, JobType, JobPayload, reservation_expiry, payout_batch, order_abandonment, low_stock_alert,
  scheduled_report,
}
use hyperscale_job_scheduler.Services.Runtime.{Clock}
use hyperscale_job_scheduler.JobService.Definitions.{printed}

-- A POST request: its headers, and its body as JSON, where an absent field is left out.
pub record Post : Type 0 where
  pub url : String
  pub headers : List (String × String)
  pub body : JobPayload

-- JobExecutionResult, whose status is always completed.
pub record JobExecutionResult : Type 0 where
  pub job_id : String
  pub job_type : JobType
  pub duration_ms : ℕ
  pub attempt : ℕ

pub record HttpClient : Type 1 where
  pub Net : Type 0
  pub clock : Clock
  pub post : Post → Exec Net (Unit {0})
  -- What a template literal prints for a variable of process.env.
  pub env : String → String

pub record Desk (h : HttpClient) : Type 0 where
  pub net : h.Net
  pub time : h.clock.Time

-- `{ key: payload.key }`
abbrev with_field : String → JobPayload → JobPayload → JobPayload
with_field key others [] = others
with_field key others (entry ∷ rest) =
    let later = with_field key others rest in if str_eq key entry.0 then entry ∷ others else later

unfoldable pub fields : List String → JobPayload → JobPayload
fields [] payload = []
fields (key ∷ keys) payload = with_field key (fields keys payload) payload

unfoldable pub job_headers : Job → List (String × String) → List (String × String)
job_headers job more = ("x-job-id", job.job_id) ∷ ("x-tenant-id", job.tenant_id) ∷ more

module _ (h : HttpClient) where
  open h use {Net, clock, post, env}

  unfoldable pub reservation_expiry_post : Job → Post
  unfolding fields job_headers
  reservation_expiry_post job = record {
    url =
        env "INVENTORY_SERVICE_URL"
        ++ ("/internal/reservations/" ++ (printed "sagaId" job.payload ++ "/expire"));
    headers = job_headers job [];
    body = fields ("inventoryId" ∷ "quantity" ∷ []) job.payload;
  }

  unfoldable pub payout_batch_post : Job → Post
  unfolding fields job_headers
  payout_batch_post job = record {
    url = env "PAYMENT_SERVICE_URL" ++ "/internal/payouts/batch";
    headers =
        job_headers job
          (("idempotency-key", "payout-" ++ printed "weekStartDate" job.payload) ∷ []);
    body = fields ("weekStartDate" ∷ "thresholdAmount" ∷ []) job.payload;
  }

  unfoldable pub order_abandonment_post : Job → Post
  unfolding fields job_headers
  order_abandonment_post job =
      if str_eq (printed "stage" job.payload) "REMINDER"
      then record {
        url = env "NOTIFICATION_SERVICE_URL" ++ "/internal/notifications/cart-reminder";
        headers = job_headers job [];
        body = fields ("orderId" ∷ "userId" ∷ []) job.payload;
      }
      else record {
        url =
            env "ORDER_SERVICE_URL"
            ++ ("/internal/orders/" ++ (printed "orderId" job.payload ++ "/abandon"));
        headers = job_headers job [];
        body = ("reason", "Payment not completed within allowed window") ∷ [];
      }

  unfoldable pub low_stock_alert_post : Job → Post
  unfolding fields job_headers
  low_stock_alert_post job = record {
    url = env "NOTIFICATION_SERVICE_URL" ++ "/internal/notifications/low-stock";
    headers = job_headers job [];
    body =
        fields ("inventoryId" ∷ "storeId" ∷ "quantityAvailable" ∷ "reorderPoint" ∷ []) job.payload;
  }

  unfoldable pub scheduled_report_post : Job → Post
  unfolding fields job_headers
  scheduled_report_post job = record {
    url = env "REPORTING_SERVICE_URL" ++ "/internal/reports/generate";
    headers = job_headers job (
        (
          "idempotency-key",
          "report-"
              ++ (printed "reportType" job.payload ++ ("-" ++ printed "periodStart" job.payload)),
        )
        ∷ []);
    body =
        fields ("reportType" ∷ "providers" ∷ "periodStart" ∷ "periodEnd" ∷ "recipientIds" ∷ [])
          job.payload;
  }

  abbrev on_net : {A : Type 0} → Exec Net A → Exec (Desk h) A
  on_net m d = let (r, x) = m d.net in (r, record d { net = x })

  abbrev on_clock : {A : Type 0} → Exec clock.Time A → Exec (Desk h) A
  on_clock m d = let (r, x) = m d.time in (r, record d { time = x })

  -- What every `handle` does with its request.
  unfoldable pub handle : (Job → Post) → Job → Exec (Desk h) JobExecutionResult
  unfolding ◌>>=◌
  handle request job = do
    start ← on_clock clock.date_now
    on_net (post (request job))
    end ← on_clock clock.date_now
    pure (record {
      job_id = job.job_id;
      job_type = job.job_type;
      duration_ms = end - start;
      attempt = job.attempts;
    })

  -- The handlers that the bootstrap gives the executor.
  unfoldable pub handlers : JobType → Job → Exec (Desk h) JobExecutionResult
  unfolding reservation_expiry_post payout_batch_post order_abandonment_post low_stock_alert_post
      scheduled_report_post handle
  handlers reservation_expiry = handle reservation_expiry_post
  handlers payout_batch = handle payout_batch_post
  handlers order_abandonment = handle order_abandonment_post
  handlers low_stock_alert = handle low_stock_alert_post
  handlers scheduled_report = handle scheduled_report_post
