-- ===== src/JobService/Cancel.antt =====
-- `cancel` of src/domains/job/job.service.ts.
use hyperscale_job_scheduler.Base.{
  ℕ, String, false, Option, none, some, ◌≡◌, refl, ◌∙◌, ap, sym, inl, inr, arith,
}
use hyperscale_job_scheduler.Exec.{ok, Result-cases}
use hyperscale_job_scheduler.Types.{Job, dead}
use hyperscale_job_scheduler.Jobs.Update.{returned, written, pre_find_one_and_update}
use hyperscale_job_scheduler.Jobs.Repository.{cancel_job, cancel_filter, cancel_update}
use hyperscale_job_scheduler.Queue.SortedSets.{has}
use hyperscale_job_scheduler.Queue.RedisJobQueue
use hyperscale_job_scheduler.Queue.RedisJobQueue.{queue_key}
use hyperscale_job_scheduler.Queue.RedisJobQueue.Reschedule.{remove_lem}
use hyperscale_job_scheduler.Services.{Services, World, on_jobs, on_sets, on_clock, on_bus}
use hyperscale_job_scheduler.Execution.Publisher.{publish_job_cancelled}
use hyperscale_job_scheduler.JobService.{publish_removed, cancel_found, cancel}

returned_dead :
    (k : String) (now : ℕ) (o : Option Job) (j : Job)
    → some j ≡ returned (cancel_filter k) (pre_find_one_and_update now cancel_update) o
    → (j.status ≡ dead)
      × (written (cancel_filter k) (pre_find_one_and_update now cancel_update) o ≡ some j)
unfolding returned written cancel_filter cancel_update pre_find_one_and_update
returned_dead k now none j e = cc
returned_dead k now (some i) j e = ground arith

module _ (s : Services) where
  open s use {jobs.{doc, update-result}, sets.{entries}}

  cancel_found-ok :
      (job_id by : String) (job r : Job) (w : World s)
      → (cancel_found s job_id by (some job) w).0 ≡ ok (some r)
      → (r ≡ job)
        × ((cancel_found s job_id by (some job) w).1.jobs ≡ w.jobs)
        × (has job_id
              (entries (cancel_found s job_id by (some job) w).1.sets (queue_key job.job_type))
            ≡ false)
  unfolding cancel_found on_sets on_clock publish_removed publish_job_cancelled on_bus
  cancel_found-ok job_id by job r w h =
      elim (Result-cases (RedisJobQueue.remove s.sets job.job_type job_id w.sets).0) [
        | inl (x, p) ↦ ground (arith, p)
        | inr (removed, p) ↦
            let gone = remove_lem s.sets job.job_type job_id w.sets removed p in
            let w' : World s = record w {
              sets = (RedisJobQueue.remove s.sets job.job_type job_id w.sets).1;
            } in
            elim (Result-cases (s.clock.date_now w.time).0) [
              | inl (x, q) ↦ ground (arith, p, q)
              | inr (at, q) ↦
                  let w'' : World s = record w' { time = (s.clock.date_now w.time).1 } in
                  elim (Result-cases (publish_removed s job by at w'').0) [
                    | inl (x, v) ↦ ground (arith, p, q, v)
                    | inr (u, v) ↦ (ground (arith, p, q, v), rw (p, q, v) refl, rw (p, q, v) gone)
                  ]
            ]
      ]

  -- When `cancel` returns a job, the job is stored as dead and is in the queue of its type no more.
  pub cancel_lem :
      (job_id by : String) (now : ℕ) (w : World s) (job : Job)
      → (cancel s job_id by now w).0 ≡ ok (some job)
      → (job.status ≡ dead)
        × (doc (cancel s job_id by now w).1.jobs job_id ≡ some job)
        × (has job_id (entries (cancel s job_id by now w).1.sets (queue_key job.job_type)) ≡ false)
  unfolding cancel on_jobs cancel_job cancel_filter
  cancel_lem job_id by now w job h = elim (Result-cases (cancel_job s.jobs job_id now w.jobs).0) [
    | inl (x, p) ↦ ground (arith, p)
    | inr (none, p) ↦ ground (arith, p)
    | inr (some j, p) ↦
        let cancelled : World s = record w { jobs = (cancel_job s.jobs job_id now w.jobs).1 } in
        let rest : (cancel_found s job_id by (some j) cancelled).0 ≡ ok (some job) = rw p at h in
        let (same, jobs_same, gone) = cancel_found-ok job_id by j job cancelled rest in
        let (answer, stored) = update-result _ _ w.jobs (some j) p in
        let (died, held) = returned_dead job_id now (doc w.jobs job_id) j answer in
        (
          ap (λ (i : Job). i.status) same ∙ died,
          rw p (ap (λ d. doc d job_id) jobs_same ∙ stored ∙ held ∙ ap some (sym same)),
          rw (p, same) gone,
        )
  ]
