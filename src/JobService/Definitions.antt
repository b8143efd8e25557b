-- ===== src/JobService/Definitions.antt =====
-- JOB_DEFINITIONS of src/shared/constants/JOB_DEFINITIONS.ts, with the keys that make enqueueing
-- idempotent. A payload is an object: the first entry of a key is the one that counts.
use Prim.Native.String.{◌++◌}
use hyperscale_job_scheduler.Base.{ℕ, String, Option, none, some, [], ◌∷◌, str_eq, if◌then◌else◌}
use hyperscale_job_scheduler.Types.{
  JobType, JobPayload, reservation_expiry, payout_batch, order_abandonment, low_stock_alert,
  scheduled_report,
}
use hyperscale_job_scheduler.Constants.{max_retries, base_delay_ms, max_delay_ms}

pub record JobDefinition : Type 0 where
  pub job_type : JobType
  pub max_attempts : ℕ
  pub base_delay_ms : ℕ
  pub max_delay_ms : ℕ
  pub timeout_ms : ℕ
  pub priority : ℕ
  pub cron_expression : Option String

abbrev pub type_name : JobType → String
type_name reservation_expiry = "RESERVATION_EXPIRY"
type_name payout_batch = "PAYOUT_BATCH"
type_name order_abandonment = "ORDER_ABANDONMENT"
type_name low_stock_alert = "LOW_STOCK_ALERT"
type_name scheduled_report = "SCHEDULED_REPORT"

-- What a template literal prints for `payload[key]`.
unfoldable pub printed : String → JobPayload → String
printed key [] = "undefined"
printed key (entry ∷ rest) =
    let later = printed key rest in if str_eq key entry.0 then entry.1 else later

-- `{ type: jobType, ...payload }`: a type in the payload wins.
unfoldable pub typed : JobType → JobPayload → JobPayload
typed job_type [] = ("type", type_name job_type) ∷ []
typed job_type (entry ∷ rest) = entry ∷ typed job_type rest

-- The part of the key that follows the name of the type.
unfoldable pub key_suffix : JobType → JobPayload → String
unfolding printed
key_suffix reservation_expiry payload = printed "sagaId" payload
key_suffix payout_batch payload = printed "weekStartDate" payload
key_suffix order_abandonment payload = printed "cartId" payload ++ (":" ++ printed "stage" payload)
key_suffix low_stock_alert payload = printed "inventoryId" payload
key_suffix scheduled_report payload =
    printed "reportType" payload ++ (":" ++ printed "periodStart" payload)

-- `definition.idempotencyKeyFn(payload)`, where `uuid` is what `uuidv4()` gives.
unfoldable pub idempotency_key : JobType → String → JobPayload → String
unfolding key_suffix printed
idempotency_key job_type uuid payload =
    if str_eq (printed "type" payload) (type_name job_type)
    then type_name job_type ++ (":" ++ key_suffix job_type payload)
    else uuid

abbrev pub job_definitions : JobType → Option JobDefinition
job_definitions reservation_expiry = some (record {
  job_type = reservation_expiry;
  max_attempts = max_retries;
  base_delay_ms = base_delay_ms;
  max_delay_ms = max_delay_ms;
  timeout_ms = 30000;
  priority = 1;
  cron_expression = none;
})
job_definitions payout_batch = some (record {
  job_type = payout_batch;
  max_attempts = 3;
  base_delay_ms = base_delay_ms;
  max_delay_ms = max_delay_ms;
  timeout_ms = 300000;
  priority = 1;
  cron_expression = some "0 8 * * 5";
})
job_definitions order_abandonment = some (record {
  job_type = order_abandonment;
  max_attempts = max_retries;
  base_delay_ms = base_delay_ms;
  max_delay_ms = max_delay_ms;
  timeout_ms = 30000;
  priority = 2;
  cron_expression = none;
})
job_definitions low_stock_alert = some (record {
  job_type = low_stock_alert;
  max_attempts = max_retries;
  base_delay_ms = base_delay_ms;
  max_delay_ms = max_delay_ms;
  timeout_ms = 15000;
  priority = 2;
  cron_expression = none;
})
job_definitions scheduled_report = some (record {
  job_type = scheduled_report;
  max_attempts = 3;
  base_delay_ms = base_delay_ms;
  max_delay_ms = max_delay_ms;
  timeout_ms = 600000;
  priority = 3;
  cron_expression = none;
})
