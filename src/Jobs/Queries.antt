-- ===== src/Jobs/Queries.antt =====
-- The read path of JobRepository in src/domains/job/job.repository.ts: due jobs, listings by page, and the
-- numbers of jobs by status. `find_by_job_id` stands in Repository.
pub mod Listings
pub mod Counts
use hyperscale_job_scheduler.Base.{
  ℕ, zero, suc, ◌+◌, String, Bool, true, false, ◌&&◌, ◌||◌, Option, none, some, List, [], ◌∷◌,
  length, filter, leb, ltb, str_eq, ◌==◌, if◌then◌else◌, ◌≡◌,
}
use hyperscale_job_scheduler.Exec.{Exec, ok, pure, ◌>>=◌}
use hyperscale_job_scheduler.Types.{
  Job, JobType, JobStatus, pending, running, completed, failed, dead, reservation_expiry,
  payout_batch, order_abandonment, low_stock_alert, scheduled_report, status_eq, type_eq,
}
use hyperscale_job_scheduler.Services.Documents.{Documents, pos}
use hyperscale_job_scheduler.Pages.{PaginatedResult, paginated}

-- A job as it is stored: with `createdAt`, which the database sets.
pub record JobDocument : Type 0 where
  pub job : Job
  pub created_at : ℕ

-- The filters and orders of the queries. An absent field is not asked for.
unfoldable pub due_filter : JobType → ℕ → JobDocument → Bool
due_filter job_type now_ms d =
    type_eq d.job.job_type job_type
    && (status_eq d.job.status pending && leb d.job.next_run_at now_ms)

unfoldable pub by_urgency : JobDocument → JobDocument → Bool
by_urgency x y =
    ltb x.job.priority y.job.priority
    || (x.job.priority == y.job.priority && leb x.job.next_run_at y.job.next_run_at)

abbrev pub has_status : Option JobStatus → JobDocument → Bool
has_status none d = true
has_status (some status) d = status_eq d.job.status status

unfoldable pub tenant_filter : String → Option JobStatus → JobDocument → Bool
tenant_filter tenant_id status d = str_eq d.job.tenant_id tenant_id && has_status status d

unfoldable pub newest_first : JobDocument → JobDocument → Bool
newest_first x y = leb y.created_at x.created_at

unfoldable pub type_filter : Option JobType → JobDocument → Bool
type_filter none d = true
type_filter (some job_type) d = type_eq d.job.job_type job_type

abbrev pub count_of : (JobDocument → Bool) → JobStatus → List JobDocument → ℕ
count_of f status ds = length (filter (λ d. f d && status_eq d.job.status status) ds)

abbrev pub rows_of : JobStatus → List (JobStatus × ℕ) → List (JobStatus × ℕ)
rows_of status = filter (λ r. status_eq r.0 status)

-- The collection with its `aggregate` of a `$match` and a `$group` by status: a row for each status
-- that occurs, in no particular order.
pub record JobReads : Type 1 where
  pub collection : Documents JobDocument
  pub group_by_status : (JobDocument → Bool) → Exec collection.Db (List (JobStatus × ℕ))
  pub group-result :
      (f : JobDocument → Bool) (d : collection.Db) (rows : List (JobStatus × ℕ))
      (status : JobStatus)
      → (group_by_status f d).0 ≡ ok rows
      → let n = count_of f status (collection.documents d) in
        rows_of status rows ≡ (if n == 0 then [] else (status, n) ∷ [])

-- Record<JobStatus, number>
pub record StatusCounts : Type 0 where
  pub pending : ℕ
  pub running : ℕ
  pub completed : ℕ
  pub failed : ℕ
  pub dead : ℕ

unfoldable pub no_counts : StatusCounts
no_counts = record { pending = 0; running = 0; completed = 0; failed = 0; dead = 0 }

-- `counts[row._id] = row.count`
unfoldable pub set_count : JobStatus × ℕ → StatusCounts → StatusCounts
set_count (JobStatus.pending, n) c = record c { pending = n }
set_count (JobStatus.running, n) c = record c { running = n }
set_count (JobStatus.completed, n) c = record c { completed = n }
set_count (JobStatus.failed, n) c = record c { failed = n }
set_count (JobStatus.dead, n) c = record c { dead = n }

unfoldable pub set_counts : List (JobStatus × ℕ) → StatusCounts → StatusCounts
set_counts [] c = c
set_counts (row ∷ rows) c = set_counts rows (set_count row c)

module _ (r : JobReads) where
  open r use {collection, group_by_status, collection.{Db, find}}

  unfoldable pub find_pending_due_jobs : JobType → ℕ → ℕ → Exec Db (List JobDocument)
  find_pending_due_jobs job_type now_ms limit =
      find (due_filter job_type now_ms) by_urgency (pos 0) limit

  unfoldable pub find_by_tenant :
      String → Option JobStatus → ℕ → ℕ → Exec Db (PaginatedResult JobDocument)
  find_by_tenant tenant_id status page limit =
      paginated collection (tenant_filter tenant_id status) newest_first page limit

  unfoldable pub find_by_filter :
      (JobDocument → Bool) → ℕ → ℕ → Exec Db (PaginatedResult JobDocument)
  find_by_filter f page limit = paginated collection f newest_first page limit

  unfoldable pub count_by_status : Option JobType → Exec Db StatusCounts
  unfolding ◌>>=◌
  count_by_status job_type = do
    rows ← group_by_status (type_filter job_type)
    pure (set_counts rows no_counts)
