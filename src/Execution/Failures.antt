-- ===== src/Execution/Failures.antt =====
-- The error path of src/domains/execution/job-executor.ts and the branches of
-- src/domains/execution/retry.service.ts.
use hyperscale_job_scheduler.Base.{ℕ, ◌-◌, ◌<◌, false, some, length, ◌≡◌, refl, arith}
use hyperscale_job_scheduler.Exec.{Exec, Message, err}
use hyperscale_job_scheduler.Exec.Keeps.{Keeps, Throws, Throws-later, Throws-now}
use hyperscale_job_scheduler.Types.{Job}
use hyperscale_job_scheduler.Services.{Services, World, on_audit, on_keys, on_clock}
use hyperscale_job_scheduler.Services.Audit.{Execution, ExecutionStatus, execution_valid}
use hyperscale_job_scheduler.Execution.Heartbeat.{clear_heartbeat}
use hyperscale_job_scheduler.Execution.Executor.{Process, attempt_failed, execution}

module _ (s : Services) (w : World s) where
  -- The jobs, the queues and the dead letters are those of `w`.
  abbrev pub IsUntouched : World s → Type 0
  IsUntouched v = (v.jobs ≡ w.jobs) × (v.sets ≡ w.sets) × (v.letters ≡ w.letters)

  on_clock-IsUntouched : {A : Type 0} (m : Exec s.clock.Time A) → Keeps IsUntouched (on_clock s m)
  unfolding on_clock
  on_clock-IsUntouched m = record { holds = λ v h. h }

  on_keys-IsUntouched : {A : Type 0} (m : Exec s.keys.Keys A) → Keeps IsUntouched (on_keys s m)
  unfolding on_keys
  on_keys-IsUntouched m = record { holds = λ v h. h }

  invalid-Throws :
      (x : Execution)
      → execution_valid x ≡ false
      → Throws IsUntouched (on_audit s (s.audit.create x))
  unfolding on_audit
  invalid-Throws x h = record { thrown = λ v q. (s.audit.create-invalid x v.audit h, q) }

module _ (s : Services) (p : Process s) where
  long_error_invalid :
      (claimed : Job) (a b c : ℕ) (error : Message)
      → 2000 < length error
      → execution_valid (execution s p claimed ExecutionStatus.failed a b c (some error)) ≡ false
  unfolding execution_valid execution
  long_error_invalid claimed a b c error h = ground arith

  -- An error message of more than 2000 units never reaches the retry service: the record of the
  -- failed attempt is refused by its schema, so the `catch` block itself throws, and the job, the
  -- queues and the dead letters stay as they are.
  pub long_error_skips_retry :
      (claimed : Job) (started_at : ℕ) (error : Message) (w : World s)
      → 2000 < length error
      → ((e : Message) × ((attempt_failed s p claimed started_at error w).0 ≡ err e))
        × IsUntouched s w (attempt_failed s p claimed started_at error w).1
  unfolding attempt_failed clear_heartbeat
  long_error_skips_retry claimed started_at error w h =
      (Throws-later _ _ (on_clock-IsUntouched s w _) λ ended_at.
          Throws-later _ _ (on_keys-IsUntouched s w _) λ _.
            Throws-later _ _ (on_clock-IsUntouched s w _) λ completed_at. Throws-now _ _ (
              invalid-Throws s w _ (
                long_error_invalid claimed started_at completed_at (ended_at - started_at) error
                  h))).thrown
        w (refl, refl, refl)
