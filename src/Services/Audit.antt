-- ===== src/Services/Audit.antt =====
-- The execution records of src/domains/execution/execution.model.ts, with the schema's validators,
-- and the collection that holds them, whose `create` is a parameter.
use hyperscale_job_scheduler.Base.{
  ℕ, String, Bool, true, false, ◌&&◌, Option, none, some, List, [], ◌∷◌, ◌++◌, length, leb, ◌≡◌,
}
use hyperscale_job_scheduler.Exec.{Exec, Message, ok, err}
use hyperscale_job_scheduler.Types.{JobType}

pub data ExecutionStatus : Type 0 where
  completed failed : ExecutionStatus

pub record Execution : Type 0 where
  pub job_id : String
  pub job_type : JobType
  pub tenant_id : String
  pub attempt : ℕ
  pub status : ExecutionStatus
  pub instance_id : String
  pub started_at : ℕ
  pub completed_at : ℕ
  pub duration_ms : ℕ
  pub error : Option Message
  pub stack : Option Message

abbrev text_fits : ℕ → Option Message → Bool
text_fits n none = true
text_fits n (some e) = leb (length e) n

-- `attempt` is at least 1, `error` has at most 2000 units and `stack` at most 5000. That the texts
-- are not empty is left out.
unfoldable pub execution_valid : Execution → Bool
execution_valid x = leb 1 x.attempt && (text_fits 2000 x.error && text_fits 5000 x.stack)

pub record ExecutionLog : Type 1 where
  pub Log : Type 0
  pub records : Log → List Execution
  pub create : Execution → Exec Log (Unit {0})
  pub create-ok :
      (x : Execution) (l : Log)
      → (create x l).0 ≡ ok tt
      → records (create x l).1 ≡ records l ++ (x ∷ [])
  -- A document that the schema rejects is not created, and the call throws.
  pub create-invalid :
      (x : Execution) (l : Log)
      → execution_valid x ≡ false
      → (e : Message) × ((create x l).0 ≡ err e)
