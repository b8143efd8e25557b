-- ===== src/Jobs/Queries/Listings.antt =====
-- What a tenant's listing may hold.
use hyperscale_job_scheduler.Base.{
  ℕ, String, Bool, true, Option, All, All-map, str_eq, ◌≡◌, inl, inr, arith,
}
use hyperscale_job_scheduler.Exec.{ok, Result-cases}
use hyperscale_job_scheduler.Types.{JobStatus}
use hyperscale_job_scheduler.Services.Documents.{Documents}
use hyperscale_job_scheduler.Pages.{PaginatedResult, paginated, skip_of}
use hyperscale_job_scheduler.Jobs.Queries.{
  JobDocument, JobReads, tenant_filter, newest_first, has_status, find_by_tenant,
}

paginated-matches :
    {D : Type 0} (c : Documents D) (f : D → Bool) (order : D → D → Bool) (page limit : ℕ) (d : c.Db)
    (r : PaginatedResult D)
    → (paginated c f order page limit d).0 ≡ ok r
    → All (λ x. f x ≡ true) r.items
unfolding paginated
paginated-matches c f order page limit d r h =
    elim (Result-cases (c.find f order (skip_of page limit) limit d).0) [
      | inl (x, p) ↦ absurd (ground (arith, p))
      | inr (xs, p) ↦
          let d' = (c.find f order (skip_of page limit) limit d).1 in
          let matching = c.find-matches f order (skip_of page limit) limit d xs p in
          elim (Result-cases (c.count_documents f d').0) [
            | inl (x, q) ↦ absurd (ground (arith, p, q))
            | inr (n, q) ↦ let e : r.items ≡ xs = ground (arith, p, q) in rw e matching
          ]
    ]

module _ (r : JobReads) where
  open r use {collection.{Db}}

  -- A tenant's listing holds jobs of this tenant only, and only of the asked status.
  pub find_by_tenant-All :
      (tenant_id : String) (status : Option JobStatus) (page limit : ℕ) (d : Db)
      (result : PaginatedResult JobDocument)
      → (find_by_tenant r tenant_id status page limit d).0 ≡ ok result
      → All
          (λ x. (str_eq x.job.tenant_id tenant_id ≡ true) × (has_status status x ≡ true))
          result.items
  unfolding find_by_tenant tenant_filter
  find_by_tenant-All tenant_id status page limit d result h =
      All-map result.items (λ x asked. (ground arith, ground arith))
        (paginated-matches r.collection (tenant_filter tenant_id status) newest_first page limit d
          result h)
