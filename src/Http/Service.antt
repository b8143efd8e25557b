-- ===== src/Http/Service.antt =====
-- The job service behind the job routes: JobService over the repository, the queue and the broker
-- (src/domains/job/job.service.ts), with the read path over the same collection.
use hyperscale_job_scheduler.Base.{ℕ, String, some, All, ◌≡◌}
use hyperscale_job_scheduler.Exec.{Exec, Message}
use hyperscale_job_scheduler.Types.{JobType}
use hyperscale_job_scheduler.Services.{Services, World, on_jobs}
use hyperscale_job_scheduler.Jobs.Repository.{find_by_job_id}
use hyperscale_job_scheduler.Jobs.Queries.{JobReads, find_by_tenant, count_by_status}
use hyperscale_job_scheduler.JobService
use hyperscale_job_scheduler.Http.Jobs.{JobApi}

-- The collection that the repository writes, as its queries by filter read it.
pub record JobView (s : Services) (r : JobReads) : Type 0 where
  pub view : s.jobs.Db → r.collection.Db
  pub stored :
      (d : s.jobs.Db)
      → All (λ x. s.jobs.doc d x.job.job_id ≡ some x.job) (r.collection.documents (view d))

module _ (s : Services) (r : JobReads) (jobs : JobView s r) where
  -- A query reads what the other calls have written.
  abbrev on_documents : {A : Type 0} → Exec r.collection.Db A → Exec (World s) A
  on_documents m w = ((m (jobs.view w.jobs)).0, w)

  -- With the uuid of the request, the text for a type without a definition, and the time.
  abbrev pub job_api : String → (JobType → Message) → ℕ → JobApi
  job_api uuid unknown now = record {
    State = World s;
    enqueue = λ request. JobService.enqueue s request uuid (unknown request.job_type);
    find_by_job_id = λ job_id. on_jobs s (find_by_job_id s.jobs job_id);
    find_by_tenant =
        λ tenant_id status page limit. on_documents (find_by_tenant r tenant_id status page limit);
    cancel = λ job_id cancelled_by. JobService.cancel s job_id cancelled_by now;
    count_by_status = λ job_type. on_documents (count_by_status r job_type);
  }
