-- ===== src/Examples/Executions.antt =====
-- The executor, the retry delay and the dead letters over the in-memory services.
use hyperscale_job_scheduler.Base.{
  ℕ, zero, suc, ◌+◌, ◌*◌, ◌^◌, ◌≤◌, ◌<◌, [], ◌∷◌, length, some, ltb, if◌then◌else◌, ◌≡◌, ◌≢◌, refl,
  ◌⊎◌, arith,
}
use hyperscale_job_scheduler.Exec.{Message, ok, err}
use hyperscale_job_scheduler.Constants.{base_delay_ms, max_delay_ms}
use hyperscale_job_scheduler.Types.{Job, running}
use hyperscale_job_scheduler.Jobs.Update.{returned, pre_find_one_and_update}
use hyperscale_job_scheduler.Jobs.Repository.{claim_job, claim_filter, claim_update}
use hyperscale_job_scheduler.Services.{on_jobs}
use hyperscale_job_scheduler.Execution.Backoff.{compute_next_run_at, backoff_delay}
use hyperscale_job_scheduler.Execution.Executor.{run_claimed, attempt_failed}
use hyperscale_job_scheduler.Execution.Versions.{IsRunningAt, run_claimed_stays_running}
use hyperscale_job_scheduler.Execution.Failures.{IsUntouched, long_error_skips_retry}
use hyperscale_job_scheduler.Execution.Retry.{handle_failure}
use hyperscale_job_scheduler.Execution.Branches.{handle_failure-exclusive}
use hyperscale_job_scheduler.DeadLetters.{create}
use hyperscale_job_scheduler.DeadLetters.Atomicity.{BothWritten, NeitherWritten, create_atomic}
use hyperscale_job_scheduler.Examples.MemoryServices.{
  memory_services, memory_letters, no_letters, worker, payout, world,
}

backoff_delay_example :
    compute_next_run_at 3 100 7
    ≡ 100 + 7 + (if ltb 3 6 then base_delay_ms * 2 ^ 3 else max_delay_ms)
backoff_delay_example = backoff_delay 3 100 7

abbrev claimed : Job
claimed = record payout {
  status = running;
  started_at = some 10;
  last_attempt_at = some 10;
  version = 1;
  attempts = 1;
}

claim_answers :
    (on_jobs memory_services (claim_job memory_services.jobs "a" 0 10) world).0 ≡ ok (some claimed)
unfolding on_jobs claim_job returned claim_filter claim_update pre_find_one_and_update
claim_answers = refl

run_claimed_stays_running_example : IsRunningAt memory_services worker 0 (
    memory_services.jobs.doc
      (run_claimed memory_services worker
        (some claimed)
        (on_jobs memory_services (claim_job memory_services.jobs "a" 0 10) world).1).1.jobs
      "a")
run_claimed_stays_running_example =
    run_claimed_stays_running memory_services worker "a" 0 10 world claimed claim_answers

abbrev repeated : ℕ → Message
repeated zero = []
repeated (suc n) = 120 ∷ repeated n

length-repeated : (n : ℕ) → length (repeated n) ≡ n
length-repeated zero = refl
length-repeated (suc n) = omega (arith, length-repeated n)

long_error_skips_retry_example :
    ((e : Message) × ((attempt_failed memory_services worker claimed 10 (repeated 2001) world).0
        ≡ err e))
    × IsUntouched memory_services world
        (attempt_failed memory_services worker claimed 10 (repeated 2001) world).1
long_error_skips_retry_example =
    long_error_skips_retry memory_services worker claimed 10 (repeated 2001) world
      (omega (arith, length-repeated 2001))

create_atomic_example :
    BothWritten memory_letters claimed
      (120 ∷ [])
      50
      no_letters
      (create memory_letters claimed (120 ∷ []) 50 no_letters).1
    ⊎ (NeitherWritten memory_letters no_letters
          (create memory_letters claimed (120 ∷ []) 50 no_letters).1
        × ((create memory_letters claimed (120 ∷ []) 50 no_letters).0 ≢ ok tt))
create_atomic_example = create_atomic memory_letters claimed (120 ∷ []) 50 no_letters

handle_failure-exclusive_example :
    ((3 ≤ 1) × ((handle_failure memory_services claimed (120 ∷ []) 2 world).1.sets ≡ world.sets))
    ⊎ ((1 < 3)
        × ((handle_failure memory_services claimed (120 ∷ []) 2 world).1.letters ≡ world.letters))
handle_failure-exclusive_example =
    handle_failure-exclusive memory_services claimed (120 ∷ []) 2 world
