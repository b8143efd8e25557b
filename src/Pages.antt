-- ===== src/Pages.antt =====
-- Pagination: PaginatedResult of src/shared/types/index.ts, and the body that findByTenant and findByFilter of
-- src/domains/job/job.repository.ts and findUnresolved of src/domains/dead-letter/
-- dead.letter.repository.ts share. The two reads of `Promise.all` run one after the other.
pub mod Complete
use hyperscale_job_scheduler.Base.{ℕ, zero, suc, ◌+◌, ◌*◌, ◌/◌, Bool, Option, none, some, List}
use hyperscale_job_scheduler.Exec.{Exec, pure, ◌>>=◌}
use hyperscale_job_scheduler.Services.Documents.{Documents, ℤ, pos, negsuc}

-- `(page - 1) * limit`
unfoldable pub skip_of : ℕ → ℕ → ℤ
skip_of zero zero = pos 0
skip_of zero (suc limit) = negsuc limit
skip_of (suc page) limit = pos (page * limit)

-- `Math.ceil(totalCount / limit) || 1`; nothing stands for Infinity.
unfoldable pub pages_of : ℕ → ℕ → Option ℕ
pages_of zero limit = some 1
pages_of (suc total) zero = none
pages_of (suc total) (suc limit) = some ((suc total + limit) / suc limit)

pub record PaginatedResult (D : Type 0) : Type 0 where
  pub items : List D
  pub total_count : ℕ
  pub total_pages : Option ℕ
  pub page : ℕ
  pub limit : ℕ

module _ {D : Type 0} (c : Documents D) where
  open c use {Db, find, count_documents}

  unfoldable pub paginated : (D → Bool) → (D → D → Bool) → ℕ → ℕ → Exec Db (PaginatedResult D)
  unfolding ◌>>=◌
  paginated filter order page limit = do
    items ← find filter order (skip_of page limit) limit
    total_count ← count_documents filter
    pure (record {
      items = items;
      total_count = total_count;
      total_pages = pages_of total_count limit;
      page = page;
      limit = limit;
    })
