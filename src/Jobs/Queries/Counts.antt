-- ===== src/Jobs/Queries/Counts.antt =====
-- `countByStatus` counts.
use hyperscale_job_scheduler.Base.{
  ℕ, suc, ◌+◌, Bool, ◌&&◌, Option, List, [], ◌∷◌, length, filter, ◌==◌, if◌then◌else◌, ◌≡◌, refl,
  ap, ◌∙◌, inl, inr, arith, Bool-cases,
}
use hyperscale_job_scheduler.Exec.{ok, Result-cases}
use hyperscale_job_scheduler.Types.{
  JobType, JobStatus, pending, running, completed, failed, dead, status_eq,
}
use hyperscale_job_scheduler.Jobs.Queries.{
  JobDocument, JobReads, StatusCounts, count_of, rows_of, set_count, set_counts, no_counts,
  type_filter, count_by_status,
}

abbrev pub counted : JobStatus → StatusCounts → ℕ
counted pending c = c.pending
counted running c = c.running
counted completed c = c.completed
counted failed c = c.failed
counted dead c = c.dead

-- The count of the last row.
abbrev last_or : ℕ → List (JobStatus × ℕ) → ℕ
last_or n [] = n
last_or n (row ∷ rows) = last_or row.1 rows

counted-set_count :
    (s : JobStatus) (row : JobStatus × ℕ) (c : StatusCounts)
    → counted s (set_count row c) ≡ (if status_eq row.0 s then row.1 else counted s c)
unfolding set_count
counted-set_count pending row c = ground arith
counted-set_count s row c = ground arith

counted-set_counts :
    (s : JobStatus) (rows : List (JobStatus × ℕ)) (c : StatusCounts)
    → counted s (set_counts rows c) ≡ last_or (counted s c) (rows_of s rows)
unfolding set_counts
counted-set_counts s [] c = refl
counted-set_counts s (row ∷ rows) c = elim (Bool-cases (status_eq row.0 s)) [
  | inl e ↦ rw (e, counted-set_counts s rows (set_count row c), counted-set_count s row c, e) refl
  | inr e ↦ rw (e, counted-set_counts s rows (set_count row c), counted-set_count s row c, e) refl
]

counted-no_counts : (s : JobStatus) → counted s no_counts ≡ 0
unfolding no_counts
counted-no_counts s = ground arith

one_of_each :
    (f : JobDocument → Bool) (ds : List JobDocument)
    → count_of f pending ds
        + count_of f running ds
        + count_of f completed ds
        + count_of f failed ds
        + count_of f dead ds
      ≡ length (filter f ds)
one_of_each f [] = omega arith
one_of_each f (d ∷ ds) = elim (Bool-cases (f d)) [
  | inl e ↦ rw e (in_its_group (one_of_each f ds) d.job.status)
  | inr e ↦ rw e (one_of_each f ds)
]
  where
    group : JobStatus → JobStatus → List JobDocument
    group status s =
        let others = filter (λ x. f x && status_eq x.job.status s) ds in
        if status_eq status s then d ∷ others else others

    in_its_group :
        count_of f pending ds
            + count_of f running ds
            + count_of f completed ds
            + count_of f failed ds
            + count_of f dead ds
          ≡ length (filter f ds)
        → (status : JobStatus)
        → length (group status pending)
            + length (group status running)
            + length (group status completed)
            + length (group status failed)
            + length (group status dead)
          ≡ suc (length (filter f ds))
    in_its_group h pending = omega (arith, h)
    in_its_group h running = omega (arith, h)
    in_its_group h completed = omega (arith, h)
    in_its_group h failed = omega (arith, h)
    in_its_group h dead = omega (arith, h)

only_row : (s : JobStatus) (n : ℕ) → last_or 0 (if n == 0 then [] else (s, n) ∷ []) ≡ n
only_row s n = elim (Bool-cases (n == 0)) [ inl e ↦ rw e (ground arith) | inr e ↦ rw e refl ]

module _ (r : JobReads) where
  open r use {group-result, group_by_status, collection.{Db, documents}}

  -- For every status, `countByStatus` gives the number of stored jobs with this status and the asked
  -- type, 0 included, and the five numbers add up to the number of jobs of that type.
  pub count_by_status_lem :
      (job_type : Option JobType) (d : Db) (c : StatusCounts)
      → (count_by_status r job_type d).0 ≡ ok c
      → ((s : JobStatus) → counted s c ≡ count_of (type_filter job_type) s (documents d))
        × (c.pending + c.running + c.completed + c.failed + c.dead
            ≡ length (filter (type_filter job_type) (documents d)))
  unfolding count_by_status
  count_by_status_lem job_type d c h =
      elim (Result-cases (group_by_status (type_filter job_type) d).0) [
        | inl (x, p) ↦ absurd (ground (arith, p))
        | inr (rows, p) ↦
            let e : c ≡ set_counts rows no_counts = ground (arith, p) in
            let each : (s : JobStatus)
                → counted s c ≡ count_of (type_filter job_type) s (documents d) =
              λ s.
                ap (counted s) e
                ∙ grouped s rows (group-result (type_filter job_type) d rows s p) in
            (
              each,
              omega (
                arith,
                each pending,
                each running,
                each completed,
                each failed,
                each dead,
                one_of_each (type_filter job_type) (documents d),
              ),
            )
      ]
    where
      grouped :
          (s : JobStatus) (rows : List (JobStatus × ℕ))
          → rows_of s rows ≡ (
              if count_of (type_filter job_type) s (documents d) == 0
              then []
              else (s, count_of (type_filter job_type) s (documents d)) ∷ [])
          → counted s (set_counts rows no_counts) ≡ count_of (type_filter job_type) s (documents d)
      grouped s rows g =
          rw (counted-set_counts s rows no_counts, counted-no_counts s, g) (only_row s _)
