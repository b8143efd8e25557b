-- ===== src/Types.antt =====
-- src/shared/types/index.ts: the statuses, types and documents that the components exchange.
-- Dates are milliseconds since the epoch. `_id`, `createdAt` and `updatedAt` are the database's own.
use hyperscale_job_scheduler.Base.{ℕ, String, Bool, true, false, Option, List}
use hyperscale_job_scheduler.Exec.{Message}

pub data JobStatus : Type 0 where
  pending running completed failed dead : JobStatus

pub data JobType : Type 0 where
  reservation_expiry payout_batch order_abandonment low_stock_alert scheduled_report : JobType

-- The JSON object of a job: its keys with the text that a template literal prints for the value.
abbrev pub JobPayload : Type 0
JobPayload = List (String × String)

pub record Job : Type 0 where
  pub job_id : String
  pub job_type : JobType
  pub tenant_id : String
  pub status : JobStatus
  pub priority : ℕ
  pub scheduled_at : ℕ
  pub next_run_at : ℕ
  pub cron_expression : Option String
  pub attempts : ℕ
  pub max_attempts : ℕ
  pub last_attempt_at : Option ℕ
  pub last_error : Option Message
  pub started_at : Option ℕ
  pub completed_at : Option ℕ
  pub payload : JobPayload
  pub version : ℕ
  pub expires_at : Option ℕ

pub record EnqueueJobInput : Type 0 where
  pub job_id : String
  pub job_type : JobType
  pub tenant_id : String
  pub scheduled_at : ℕ
  pub next_run_at : ℕ
  pub priority : ℕ
  pub max_attempts : ℕ
  pub cron_expression : Option String
  pub payload : JobPayload

-- `===` on statuses.
abbrev pub status_eq : JobStatus → JobStatus → Bool
status_eq pending pending = true
status_eq running running = true
status_eq completed completed = true
status_eq failed failed = true
status_eq dead dead = true
status_eq _ _ = false

-- `===` on job types.
abbrev pub type_eq : JobType → JobType → Bool
type_eq reservation_expiry reservation_expiry = true
type_eq payout_batch payout_batch = true
type_eq order_abandonment order_abandonment = true
type_eq low_stock_alert low_stock_alert = true
type_eq scheduled_report scheduled_report = true
type_eq _ _ = false
