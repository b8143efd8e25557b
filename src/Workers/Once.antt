-- ===== src/Workers/Once.antt =====
-- How often an execution calls another service.
use hyperscale_job_scheduler.Base.{
  ℕ, arith, ◌+◌, List, Option, none, some, ◌≡◌, refl, ap, ◌∙◌, ◌⊎◌, inl, inr,
}
use hyperscale_job_scheduler.Exec.{ok, pure, ◌>>=◌, Result-cases}
use hyperscale_job_scheduler.Types.{Job}
use hyperscale_job_scheduler.Jobs.Repository.{claim_job}
use hyperscale_job_scheduler.Services.{Services, World, on_jobs, on_clock}
use hyperscale_job_scheduler.Execution.Executor.{Process, run_claimed, execute, date_now}
use hyperscale_job_scheduler.Execution.Versions.{IsRunningAt, run_claimed_stays_running}
use hyperscale_job_scheduler.Jobs.Repository.Lifecycle.{Write, perform_all}
use hyperscale_job_scheduler.Jobs.Repository.Lifecycle.Claims.{Reached, Reached-claim}
use hyperscale_job_scheduler.Workers.{HttpClient}
use hyperscale_job_scheduler.Workers.Wiring.{wired, job_executor}
use hyperscale_job_scheduler.Workers.Calls.{request_for, run_claimed-Called}

Running-Reached :
    (s : Services) (p : Process s) (v : ℕ) (o : Option Job)
    → IsRunningAt s p v o
    → Reached (v + 1) o
Running-Reached s p v none h = absurd h
Running-Reached s p v (some j) h = omega (arith, h.1)

module _ (s : Services) (h : HttpClient) (p : Process (wired s h)) where
  abbrev pub ran : Job → World (wired s h) → World (wired s h)
  ran job w = (execute (wired s h) (job_executor s h p) job w).1

  -- Whatever the services answer or throw, an execution calls another service at most once: either no
  -- request was sent, or the claim of the job at its version returned a job, what was sent is the one
  -- request that the handler of its type makes for this job, and the job is past this version then.
  pub execute_posts_once :
      (job : Job) (w : World (wired s h))
      → ((execute (wired s h) (job_executor s h p) job w).1.remote.net ≡ w.remote.net)
        ⊎ ((now : ℕ) × (j : Job) × ((claim_job s.jobs job.job_id job.version now w.jobs).0
              ≡ ok (some j))
            × ((execute (wired s h) (job_executor s h p) job w).1.remote.net
                ≡ (h.post (request_for h j.job_type j) w.remote.net).1)
            × Reached
                (job.version + 1)
                (s.jobs.doc (execute (wired s h) (job_executor s h p) job w).1.jobs job.job_id))
  unfolding execute date_now on_clock on_jobs run_claimed pure ◌>>=◌
  execute_posts_once job w =
      let (now, told) = s.clock.date_now-ok w.time in
      elim (Result-cases (claim_job s.jobs job.job_id job.version now w.jobs).0) [
        | inl (e, lost) ↦ inl (rw (told, lost) refl)
        | inr (none, missed) ↦ inl (rw (told, missed) refl)
        | inr (some j, got) ↦
            let t : World (wired s h) = record w { time = (s.clock.date_now w.time).1 } in
            let v = (on_jobs (wired s h) (claim_job s.jobs job.job_id job.version now) t).1 in
            let past = Running-Reached (wired s h) (job_executor s h p) job.version _ (
              run_claimed_stays_running (wired s h) (job_executor s h p) job.job_id job.version now
                t j got) in
            elim ((run_claimed-Called s h p w.remote.net j).holds v refl) [
              | inl idle ↦ inl (rw (told, got) idle)
              | inr sent ↦ inr (now, j, got, rw (told, got) sent, rw (told, got) past)
            ]
      ]

  -- The claim of the job at its version returned this job.
  abbrev pub Claimed : Job → World (wired s h) → Job → Type 0
  Claimed job w j =
      (now : ℕ) × ((claim_job s.jobs job.job_id job.version now w.jobs).0 ≡ ok (some j))

  -- Two executions of the same job at the same version, with any history of write calls of any
  -- instances between them and whatever the services answer or throw, call another service at most
  -- once altogether: either no request was sent, or one of the two claims of the job at its version
  -- returned a job, and what was sent is the one request that the handler of its type makes for it.
  pub execute_twice_posts_once :
      (job : Job) (ws : List Write) (w : World (wired s h))
      → let first = ran job w in
        let between : World (wired s h) = record first {
          jobs = perform_all s.jobs ws first.jobs;
        } in
        let second = ran job between in
        (second.remote.net ≡ w.remote.net)
        ⊎ ((j : Job) × (Claimed job w j ⊎ Claimed job between j)
            × (second.remote.net ≡ (h.post (request_for h j.job_type j) w.remote.net).1))
  execute_twice_posts_once job ws w =
      let first = ran job w in
      let between : World (wired s h) = record first { jobs = perform_all s.jobs ws first.jobs } in
      elim (execute_posts_once job w) [
        | inl idle ↦ elim (execute_posts_once job between) [
          | inl still ↦ inl (still ∙ idle)
          | inr (now, j, got, sent, past) ↦
              inr
                (j, inr (now, got), sent ∙ ap (λ n. (h.post (request_for h j.job_type j) n).1) idle)
        ]
        | inr (now, j, got, sent, past) ↦ elim (execute_posts_once job between) [
          | inl still ↦ inr (j, inl (now, got), still ∙ sent)
          | inr (later, i, again, resent, further) ↦
              let missed =
                Reached-claim s.jobs job.job_id job.version later first.jobs ws (some i) past
                  again in
              absurd (cc)
        ]
      ]
