-- ===== src/JobService/Enqueue.antt =====
-- What the caller of `enqueue` and `cancel` may rely on.
use hyperscale_job_scheduler.Base.{
  ◌⊎◌, inl, inr, String, true, Option, none, some, ◌≡◌, refl, ◌∙◌, ap, sym, arith,
}
use hyperscale_job_scheduler.Exec.{Message, ok, Result-cases}
use hyperscale_job_scheduler.Types.{Job, pending}
use hyperscale_job_scheduler.Jobs.Update.{upserted}
use hyperscale_job_scheduler.Jobs.Repository.{create_job, new_job}
use hyperscale_job_scheduler.Queue.SortedSets.{has}
use hyperscale_job_scheduler.Queue.RedisJobQueue
use hyperscale_job_scheduler.Queue.RedisJobQueue.{queue_key}
use hyperscale_job_scheduler.Queue.RedisJobQueue.Reschedule.{enqueue-has}
use hyperscale_job_scheduler.Services.{Services, World, on_jobs, on_sets, on_bus}
use hyperscale_job_scheduler.Execution.Publisher.{publish_job_scheduled}
use hyperscale_job_scheduler.JobService.{
  CreateJobRequest, job_id_of, input_of, publish_enqueued, queue_job, enqueue_defined, enqueue,
}
use hyperscale_job_scheduler.JobService.Definitions.{JobDefinition, job_definitions}

module _ (s : Services) where
  open s use {jobs.{doc, insert-result}, sets.{entries}}

  -- The job was there, or it was inserted as the request says.
  abbrev pub IsOutcome : CreateJobRequest → String → Option Job → Job → Type 0
  IsOutcome request uuid before job =
      (before ≡ some job)
      ⊎ ((before ≡ none)
          × (job.status ≡ pending)
          × (job.version ≡ 0)
          × (job.attempts ≡ 0)
          × (job.job_type ≡ request.job_type)
          × (job.tenant_id ≡ request.tenant_id)
          × (job.next_run_at ≡ request.scheduled_at))

  upserted-IsOutcome :
      (request : CreateJobRequest) (uuid : String) (definition : JobDefinition)
      (before : Option Job)
      → IsOutcome request uuid before (upserted (new_job (input_of request uuid definition)) before)
  unfolding new_job input_of
  upserted-IsOutcome request uuid definition none = inr (refl, refl, refl, refl, refl, refl, refl)
  upserted-IsOutcome request uuid definition (some j) = inl refl

  -- What publishing leaves alone.
  publish_enqueued-same :
      (job : Job) (w : World s)
      → ((publish_enqueued s job w).1.jobs ≡ w.jobs) × ((publish_enqueued s job w).1.sets ≡ w.sets)
  unfolding publish_enqueued publish_job_scheduled on_bus
  publish_enqueued-same job w = (refl, refl)

  queue_job-ok :
      (request : CreateJobRequest) (uuid : String) (job b : Job) (w : World s)
      → (queue_job s request uuid job w).0 ≡ ok b
      → (b ≡ job)
        × ((queue_job s request uuid job w).1.jobs ≡ w.jobs)
        × (has
              (job_id_of request uuid)
              (entries (queue_job s request uuid job w).1.sets (queue_key request.job_type))
            ≡ true)
  unfolding queue_job on_sets
  queue_job-ok request uuid job b w h =
      let t = request.job_type in
      let queued =
        RedisJobQueue.enqueue s.sets t (job_id_of request uuid) request.scheduled_at w.sets in
      let w' : World s = record w { sets = queued.1 } in
      let same = publish_enqueued-same job w' in
      elim (Result-cases queued.0) [
        | inl (x, p) ↦ ground (arith, p)
        | inr (added, p) ↦
            let there =
              enqueue-has s.sets t (job_id_of request uuid) request.scheduled_at w.sets added p in
            elim (Result-cases (publish_enqueued s job w').0) [
              | inl (x, q) ↦ ground (arith, p, q)
              | inr (u, q) ↦ (ground (arith, p, q), rw (p, q) same.0, rw (p, q, same.1) there)
            ]
      ]

  -- The job is stored under its key, it is in the queue of the request's type, and it is the job that
  -- was there before or the one that the request describes.
  abbrev pub IsEnqueued : CreateJobRequest → String → World s → World s → Job → Type 0
  IsEnqueued request uuid w w' job =
      (doc w'.jobs (job_id_of request uuid) ≡ some job)
      × (has (job_id_of request uuid) (entries w'.sets (queue_key request.job_type)) ≡ true)
      × IsOutcome request uuid (doc w.jobs (job_id_of request uuid)) job

  enqueue_defined-IsEnqueued :
      (request : CreateJobRequest) (uuid : String) (unknown : Message) (o : Option JobDefinition)
      (w : World s) (b : Job)
      → (enqueue_defined s request uuid unknown o w).0 ≡ ok b
      → IsEnqueued request uuid w (enqueue_defined s request uuid unknown o w).1 b
  unfolding enqueue_defined on_jobs create_job new_job
  enqueue_defined-IsEnqueued request uuid unknown none w b h = cc
  enqueue_defined-IsEnqueued request uuid unknown (some definition) w b h =
      let fresh = new_job (input_of request uuid definition) in
      let created = create_job s.jobs (input_of request uuid definition) w.jobs in
      let w' : World s = record w { jobs = created.1 } in
      elim (Result-cases created.0) [
        | inl (x, p) ↦ ground (arith, p)
        | inr (job, p) ↦
            let (value, there) = insert-result fresh job w.jobs p in
            let rest : (queue_job s request uuid job w').0 ≡ ok b = rw p at h in
            let (same, jobs_same, queued) = queue_job-ok request uuid job b w' rest in
            let value' : b ≡ upserted fresh (doc w.jobs fresh.job_id) = same ∙ value in
            rw p (
              ap (λ d. doc d (job_id_of request uuid)) jobs_same ∙ there ∙ ap some (sym value'),
              queued,
              rw value' (upserted-IsOutcome request uuid definition (doc w.jobs fresh.job_id)),
            )
      ]

  -- When `enqueue` returns, the job that it returns is stored under the request's idempotency key, it
  -- is in the queue of its type, and it is either the job that was stored before, as it was, or a new
  -- pending job at version 0 with the request's type, tenant and time.
  pub enqueue-IsEnqueued :
      (request : CreateJobRequest) (uuid : String) (unknown : Message) (w : World s) (job : Job)
      → (enqueue s request uuid unknown w).0 ≡ ok job
      → IsEnqueued request uuid w (enqueue s request uuid unknown w).1 job
  unfolding enqueue
  enqueue-IsEnqueued request uuid unknown w job h =
      enqueue_defined-IsEnqueued request uuid unknown (job_definitions request.job_type) w job h

  -- Enqueueing is idempotent: of two requests with the same key, the second, when both return, returns
  -- the job of the first and leaves its document as it is.
  pub enqueue_again :
      (request request' : CreateJobRequest) (uuid uuid' : String) (unknown : Message) (w : World s)
      (job job' : Job)
      → job_id_of request uuid ≡ job_id_of request' uuid'
      → (enqueue s request uuid unknown w).0 ≡ ok job
      → (enqueue s request' uuid' unknown (enqueue s request uuid unknown w).1).0 ≡ ok job'
      → (job' ≡ job)
        × (doc
              (enqueue s request' uuid' unknown (enqueue s request uuid unknown w).1).1.jobs
              (job_id_of request uuid)
            ≡ some job)
  enqueue_again request request' uuid uuid' unknown w job job' same first second =
      let w' = (enqueue s request uuid unknown w).1 in
      let (there, _, _) = enqueue-IsEnqueued request uuid unknown w job first in
      let (held, _, outcome) = enqueue-IsEnqueued request' uuid' unknown w' job' second in
      let found : doc w'.jobs (job_id_of request' uuid') ≡ some job =
        ap (doc w'.jobs) (sym same) ∙ there in
      let equal : job' ≡ job = elim outcome [
        | inl was ↦ ground (arith, was, found)
        | inr (absent, _, _, _, _, _, _) ↦ cc
      ] in
      (equal, rw same (held ∙ ap some equal))
