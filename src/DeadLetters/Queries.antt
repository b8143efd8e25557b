-- ===== src/DeadLetters/Queries.antt =====
-- The dead letters that the support staff reads and resolves: findByJobId, findUnresolved, resolve and
-- deleteByJobId of src/domains/dead-letter/dead.letter.repository.ts. The service of the same names
-- hands its arguments on.
use hyperscale_job_scheduler.Base.{
  ℕ, String, Bool, true, false, ◌&&◌, Option, none, some, take, leb, str_eq, if◌then◌else◌,
}
use hyperscale_job_scheduler.Exec.{Exec, Message}
use hyperscale_job_scheduler.Types.{JobType, type_eq}
use hyperscale_job_scheduler.Services.Letters.{DeadLetter}
use hyperscale_job_scheduler.Services.Documents.{Documents}
use hyperscale_job_scheduler.Pages.{PaginatedResult, paginated}

-- `resolvedAt: { $exists: false }`
abbrev pub is_unresolved : Option ℕ → Bool
is_unresolved none = true
is_unresolved (some at) = false

unfoldable pub resolve_filter : String → DeadLetter → Bool
resolve_filter job_id d = str_eq d.job_id job_id && is_unresolved d.resolved_at

unfoldable pub resolve_update : ℕ → String → Message → DeadLetter → DeadLetter
resolve_update now resolved_by resolution d = record d {
  resolved_at = some now;
  resolved_by = some resolved_by;
  resolution = some (take 1000 resolution);
}

-- An absent or empty tenant is not asked for.
abbrev of_tenant : Option String → DeadLetter → Bool
of_tenant none d = true
of_tenant (some tenant_id) d = if str_eq tenant_id "" then true else str_eq d.tenant_id tenant_id

abbrev of_type : Option JobType → DeadLetter → Bool
of_type none d = true
of_type (some job_type) d = type_eq d.job_type job_type

unfoldable pub letter_filter : Option String → Option JobType → DeadLetter → Bool
letter_filter tenant_id job_type d =
    is_unresolved d.resolved_at && (of_tenant tenant_id d && of_type job_type d)

unfoldable pub latest_first : DeadLetter → DeadLetter → Bool
latest_first x y = leb y.dead_at x.dead_at

module _ (c : Documents DeadLetter) where
  open c use {Db, find_one, find_one_and_update, delete_one}

  unfoldable pub find_by_job_id : String → Exec Db (Option DeadLetter)
  find_by_job_id job_id = find_one (λ d. str_eq d.job_id job_id)

  unfoldable pub find_unresolved :
      Option String → Option JobType → ℕ → ℕ → Exec Db (PaginatedResult DeadLetter)
  find_unresolved tenant_id job_type page limit =
      paginated c (letter_filter tenant_id job_type) latest_first page limit

  -- With the time at which it runs.
  unfoldable pub resolve : String → String → Message → ℕ → Exec Db (Option DeadLetter)
  resolve job_id resolved_by resolution now =
      find_one_and_update (resolve_filter job_id) (resolve_update now resolved_by resolution)

  unfoldable pub delete_by_job_id : String → Exec Db (Unit {0})
  delete_by_job_id job_id = delete_one (λ d. str_eq d.job_id job_id)
