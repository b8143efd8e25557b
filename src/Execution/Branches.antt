-- ===== src/Execution/Branches.antt =====
-- The two outcomes of src/domains/execution/retry.service.ts: a dead letter or another attempt.
use hyperscale_job_scheduler.Base.{
  ◌≤◌, ◌<◌, leb, ◌≡◌, refl, ◌⊎◌, inl, inr, arith, Bool-cases, ℕ, true, false,
}
use hyperscale_job_scheduler.Exec.{Exec, Message}
use hyperscale_job_scheduler.Exec.Keeps.{Keeps, keeping}
use hyperscale_job_scheduler.Types.{Job}
use hyperscale_job_scheduler.Services.{
  Services, World, on_jobs, on_sets, on_letters, on_bus, on_clock,
}
use hyperscale_job_scheduler.Services.Broker.{Bus}
use hyperscale_job_scheduler.Execution.Publisher.{publish_job_failed, publish_job_retrying}
use hyperscale_job_scheduler.Execution.Retry.{exhausted, retried, handle_failure}

module _ (s : Services) where
  abbrev pub HasSets : s.sets.Sets → World s → Type 0
  HasSets z w = w.sets ≡ z

  abbrev pub HasLetters : s.letters.Store → World s → Type 0
  HasLetters z w = w.letters ≡ z

module _ (s : Services) (z : s.sets.Sets) {A : Type 0} where
  on_jobs-HasSets : (m : Exec s.jobs.Db A) → Keeps (HasSets s z) (on_jobs s m)
  unfolding on_jobs
  on_jobs-HasSets m = record { holds = λ w h. h }

  on_letters-HasSets : (m : Exec s.letters.Store A) → Keeps (HasSets s z) (on_letters s m)
  unfolding on_letters
  on_letters-HasSets m = record { holds = λ w h. h }

  on_clock-HasSets : (m : Exec s.clock.Time A) → Keeps (HasSets s z) (on_clock s m)
  unfolding on_clock
  on_clock-HasSets m = record { holds = λ w h. h }

  on_bus-HasSets : (m : Exec (Bus s.broker.Net) A) → Keeps (HasSets s z) (on_bus s m)
  unfolding on_bus
  on_bus-HasSets m = record { holds = λ w h. h }

module _ (s : Services) (z : s.letters.Store) {A : Type 0} where
  on_jobs-HasLetters : (m : Exec s.jobs.Db A) → Keeps (HasLetters s z) (on_jobs s m)
  unfolding on_jobs
  on_jobs-HasLetters m = record { holds = λ w h. h }

  on_sets-HasLetters : (m : Exec s.sets.Sets A) → Keeps (HasLetters s z) (on_sets s m)
  unfolding on_sets
  on_sets-HasLetters m = record { holds = λ w h. h }

  on_clock-HasLetters : (m : Exec s.clock.Time A) → Keeps (HasLetters s z) (on_clock s m)
  unfolding on_clock
  on_clock-HasLetters m = record { holds = λ w h. h }

  on_bus-HasLetters : (m : Exec (Bus s.broker.Net) A) → Keeps (HasLetters s z) (on_bus s m)
  unfolding on_bus
  on_bus-HasLetters m = record { holds = λ w h. h }

ruleset sparing = (
  keeping, on_jobs-HasSets, on_letters-HasSets, on_clock-HasSets, on_bus-HasSets,
  on_jobs-HasLetters, on_sets-HasLetters, on_clock-HasLetters, on_bus-HasLetters,
)

module _ (s : Services) where
  exhausted-HasSets :
      (z : s.sets.Sets) (job : Job) (e : Message) (v : ℕ)
      → Keeps (HasSets s z) (exhausted s job e v)
  unfolding exhausted
  exhausted-HasSets z job e v = search sparing depth 9

  retried-HasLetters :
      (z : s.letters.Store) (job : Job) (e : Message) (v : ℕ)
      → Keeps (HasLetters s z) (retried s job e v)
  unfolding retried publish_job_retrying
  retried-HasLetters z job e v = search sparing depth 12

  failed-HasSets :
      (z : s.sets.Sets) (job : Job) (e : Message) (v : ℕ)
      → leb job.max_attempts job.attempts ≡ true
      → Keeps (HasSets s z) (handle_failure s job e v)
  unfolding handle_failure publish_job_failed
  failed-HasSets z job e v last = rw last (search (sparing, exhausted-HasSets))

  failed-HasLetters :
      (z : s.letters.Store) (job : Job) (e : Message) (v : ℕ)
      → leb job.max_attempts job.attempts ≡ false
      → Keeps (HasLetters s z) (handle_failure s job e v)
  unfolding handle_failure publish_job_failed
  failed-HasLetters z job e v more = rw more (search (sparing, retried-HasLetters))

  -- Whatever the services answer or throw: a failure of a job whose attempts are used up leaves every
  -- queue as it is, and a failure of a job with attempts left writes no dead letter and no outbox event.
  pub handle_failure-exclusive :
      (job : Job) (error : Message) (new_version : ℕ) (w : World s)
      → ((job.max_attempts ≤ job.attempts)
          × ((handle_failure s job error new_version w).1.sets ≡ w.sets))
        ⊎ ((job.attempts < job.max_attempts)
            × ((handle_failure s job error new_version w).1.letters ≡ w.letters))
  handle_failure-exclusive job error new_version w =
      elim (Bool-cases (leb job.max_attempts job.attempts)) [
        | inl last ↦
            inl (ground arith, (failed-HasSets w.sets job error new_version last).holds w refl)
        | inr more ↦
            inr
              (ground arith, (failed-HasLetters w.letters job error new_version more).holds w refl)
      ]
