-- ===== src/Examples/Listings.antt =====
-- Listings of three jobs, and a dead letter that is resolved.
use hyperscale_job_scheduler.Base.{
  ℕ, suc, ◌+◌, Bool, true, Option, none, some, List, [], ◌∷◌, ◌++◌, length, filter, take, All,
  str_eq, ◌==◌, if◌then◌else◌, ◌≡◌, refl, ◌∙◌, ◌⊎◌, inl, inr, Bool-cases,
}
use hyperscale_job_scheduler.Exec.{ok, ok-eq}
use hyperscale_job_scheduler.Types.{
  JobStatus, pending, running, completed, failed, dead, payout_batch, status_eq,
}
use hyperscale_job_scheduler.Services.Documents.{sorted}
use hyperscale_job_scheduler.Services.Letters.{DeadLetter}
use hyperscale_job_scheduler.Pages.{PaginatedResult, paginated, skip_of, pages_of}
use hyperscale_job_scheduler.Pages.Complete.{read_pages, read_pages_all}
use hyperscale_job_scheduler.Jobs.Queries.{
  JobDocument, JobReads, StatusCounts, count_of, rows_of, has_status, newest_first, tenant_filter,
  type_filter, find_by_tenant, count_by_status, set_counts, set_count, no_counts,
}
use hyperscale_job_scheduler.Jobs.Queries.Counts.{counted, count_by_status_lem}
use hyperscale_job_scheduler.Jobs.Queries.Listings.{find_by_tenant-All}
use hyperscale_job_scheduler.DeadLetters.Queries.{resolve, resolve_filter, resolve_update}
use hyperscale_job_scheduler.DeadLetters.Resolution.{unresolved, resolve_once, resolve_lem}
use hyperscale_job_scheduler.Examples.MemoryDocuments.{memory_documents}
use hyperscale_job_scheduler.Examples.MemoryServices.{payout}

abbrev row : JobStatus → ℕ → List (JobStatus × ℕ)
row s n = if n == 0 then [] else (s, n) ∷ []

rows_of-row :
    (s t : JobStatus) (n : ℕ) (rest : List (JobStatus × ℕ))
    → rows_of s (row t n ++ rest)
      ≡ (if status_eq t s then row t n ++ rows_of s rest else rows_of s rest)
rows_of-row s t n rest = elim (Bool-cases (n == 0)) [
  | inl e ↦ elim (Bool-cases (status_eq t s)) [ inl q ↦ rw (e, q) refl | inr q ↦ rw (e, q) refl ]
  | inr e ↦ elim (Bool-cases (status_eq t s)) [ inl q ↦ rw (e, q) refl | inr q ↦ rw (e, q) refl ]
]

module _ (n : JobStatus → ℕ) where
  abbrev pub grouped : List (JobStatus × ℕ)
  grouped =
      row pending (n pending)
      ++ (row running (n running)
          ++ (row completed (n completed) ++ (row failed (n failed) ++ (row dead (n dead) ++ []))))

  only_row : (s : JobStatus) → row s (n s) ++ [] ≡ row s (n s)
  only_row s = elim (Bool-cases (n s == 0)) [ inl e ↦ rw e refl | inr e ↦ rw e refl ]

  by_status : (s : JobStatus) → rows_of s grouped ≡ row s (n s) ++ []
  by_status s =
      rw
        (
          rows_of-row s pending (n pending) _,
          rows_of-row s running (n running) _,
          rows_of-row s completed (n completed) _,
          rows_of-row s failed (n failed) _,
          rows_of-row s dead (n dead) _,
        )
        (picked s)
    where
      rest : JobStatus → JobStatus → List (JobStatus × ℕ) → List (JobStatus × ℕ)
      rest s t xs = if status_eq t s then row t (n t) ++ xs else xs

      picked :
          (s : JobStatus)
          → rest s pending (rest s running (rest s completed (rest s failed (rest s dead []))))
            ≡ row s (n s) ++ []
      picked pending = refl
      picked running = refl
      picked completed = refl
      picked failed = refl
      picked dead = refl

  pub rows_of-grouped : (s : JobStatus) → rows_of s grouped ≡ row s (n s)
  rows_of-grouped s = by_status s ∙ only_row s

abbrev pub memory_reads : JobReads
memory_reads = record {
  collection = memory_documents JobDocument;
  group_by_status = λ f ds. (ok (grouped (λ s. count_of f s ds)), ds);
  group-result = λ f ds rows s h. rw (ok-eq _ rows h) (rows_of-grouped (λ t. count_of f t ds) s);
}

abbrev pub stored_jobs : List JobDocument
stored_jobs =
    record { job = payout; created_at = 10 }
    ∷ record { job = record payout { job_id = "b"; status = dead }; created_at = 30 }
    ∷ record { job = record payout { job_id = "c"; tenant_id = "u" }; created_at = 20 }
    ∷ []

abbrev any : JobDocument → Bool
any d = true

abbrev first_page : PaginatedResult JobDocument
first_page = record {
  items =
      record { job = record payout { job_id = "b"; status = dead }; created_at = 30 }
      ∷ record { job = record payout { job_id = "c"; tenant_id = "u" }; created_at = 20 }
      ∷ [];
  total_count = 3;
  total_pages = some 2;
  page = 1;
  limit = 2;
}

abbrev listed : List JobDocument
listed = sorted newest_first stored_jobs

read_pages_all_example : listed ≡ sorted newest_first (filter any stored_jobs)
unfolding newest_first paginated skip_of pages_of read_pages
read_pages_all_example =
    read_pages_all (memory_documents JobDocument) any newest_first 1 2 stored_jobs first_page listed
      ((refl, (refl, tt)), ((refl, tt), (tt, tt))) refl refl refl

find_by_tenant-All_example :
    All
      (λ x. (str_eq x.job.tenant_id "t" ≡ true) × (has_status (some dead) x ≡ true))
      (record { job = record payout { job_id = "b"; status = dead }; created_at = 30 } ∷ [])
unfolding find_by_tenant paginated skip_of tenant_filter pages_of
find_by_tenant-All_example =
    find_by_tenant-All memory_reads "t" (some dead) 1 20 stored_jobs
      (record {
        items =
            record { job = record payout { job_id = "b"; status = dead }; created_at = 30 } ∷ [];
        total_count = 1;
        total_pages = some 1;
        page = 1;
        limit = 20;
      })
      refl

abbrev counts : StatusCounts
counts = record { pending = 2; running = 0; completed = 0; failed = 0; dead = 1 }

count_by_status_example :
    ((s : JobStatus) → counted s counts ≡ count_of (type_filter (some payout_batch)) s stored_jobs)
    × (2 + 0 + 0 + 0 + 1 ≡ length (filter (type_filter (some payout_batch)) stored_jobs))
unfolding count_by_status set_counts type_filter set_count no_counts
count_by_status_example =
    count_by_status_lem memory_reads (some payout_batch) stored_jobs counts refl

abbrev letter : DeadLetter
letter = record {
  job_id = "a";
  job_type = payout_batch;
  tenant_id = "t";
  payload = [];
  attempts = 3;
  errors = [];
  dead_at = 50;
  resolved_at = none;
  resolved_by = none;
  resolution = none;
  expires_at = 1000;
}

abbrev stored_letters : List DeadLetter
stored_letters = record letter { job_id = "z" } ∷ letter ∷ []

abbrev resolved : DeadLetter
resolved = record letter {
  resolved_at = some 60;
  resolved_by = some "ops";
  resolution = some (114 ∷ []);
}

abbrev nobody : Option DeadLetter
nobody = none

resolve_once_example : nobody ≡ none
unfolding resolve resolve_filter resolve_update
resolve_once_example =
    resolve_once (memory_documents DeadLetter) "a" "ops" "dev" (114 ∷ []) [] 60 70 stored_letters
      resolved nobody ((refl, tt), (tt, tt)) refl refl

abbrev letters_after : List DeadLetter
letters_after = record letter { job_id = "z" } ∷ resolved ∷ []

resolve_lem_example :
    ((some resolved ≡ none)
      × ((letters_after ≡ stored_letters) × (filter (resolve_filter "a") stored_letters ≡ [])))
    ⊎ ((x : DeadLetter) × ((some resolved ≡ some x)
          × ((x.job_id ≡ "a")
              × ((x.resolved_at ≡ some 60)
                  × ((x.resolved_by ≡ some "ops")
                      × ((x.resolution ≡ some (take 1000 (114 ∷ [])))
                          × ((length (unresolved stored_letters)
                                ≡ suc (length (unresolved letters_after)))
                              × (length letters_after ≡ length stored_letters))))))))
unfolding resolve resolve_filter resolve_update
resolve_lem_example =
    resolve_lem (memory_documents DeadLetter) "a" "ops" (114 ∷ []) 60 stored_letters (some resolved)
      refl
