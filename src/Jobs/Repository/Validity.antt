-- ===== src/Jobs/Repository/Validity.antt =====
-- What every write call of src/domains/job/job.repository.ts keeps of every document.
use hyperscale_job_scheduler.Base.{
  ℕ, String, true, Option, none, some, List, [], ◌∷◌, ◌≡◌, refl, inl, inr, Bool-cases, str_eq-cases,
  subst, All,
}
use hyperscale_job_scheduler.Types.{Job, EnqueueJobInput}
use hyperscale_job_scheduler.Jobs.Schema.{job_valid}
use hyperscale_job_scheduler.Jobs.Update.{
  JobFilter, JobUpdate, matches, is_stale, apply, written, restarted, upserted,
}
use hyperscale_job_scheduler.Jobs.Collection.{JobCollection}
use hyperscale_job_scheduler.Jobs.Repository.{
  new_job, create_job, claim_job, mark_completed, mark_failed, mark_dead, cancel_job,
  reset_stale_jobs, stale_filter, stale_update,
}
use hyperscale_job_scheduler.Jobs.Repository.Lifecycle.{Write, perform, perform_all}
use hyperscale_job_scheduler.Jobs.Repository.Storable.{
  IsStorable, claim-IsStorable, complete-IsStorable, fail-IsStorable, dead-IsStorable,
  cancel-IsStorable, stale-IsStorable,
}

abbrev pub AllStorable : Option Job → Type 0
AllStorable none = Unit {0}
AllStorable (some j) = IsStorable j

-- A job that is created fits the schema.
abbrev pub Creates : Write → Type 0
Creates (Write.creates input) = job_valid (new_job input) ≡ true
Creates _ = Unit {0}

-- One update, wherever it is applied.
written-AllStorable :
    (f : JobFilter) (u : JobUpdate)
    → ((j : Job) → matches f j ≡ true → IsStorable j → IsStorable (apply u j))
    → (o : Option Job) → AllStorable o
    → AllStorable (written f u o)
unfolding written
written-AllStorable f u keep none h = tt
written-AllStorable f u keep (some j) h = elim (Bool-cases (matches f j)) [
  | inl hit ↦ rw hit (keep j hit h)
  | inr miss ↦ rw miss h
]

restarted-AllStorable :
    (t age : ℕ) (o : Option Job)
    → AllStorable o
    → AllStorable (restarted (stale_filter t age) stale_update o)
unfolding restarted
restarted-AllStorable t age none h = tt
restarted-AllStorable t age (some j) h = elim (Bool-cases (is_stale (stale_filter t age) j)) [
  | inl hit ↦ rw hit (stale-IsStorable t j age hit h)
  | inr miss ↦ rw miss h
]

upserted-AllStorable :
    (input : EnqueueJobInput) (o : Option Job)
    → job_valid (new_job input) ≡ true
    → AllStorable o
    → IsStorable (upserted (new_job input) o)
unfolding new_job
upserted-AllStorable input none e h = record { valid = e; expiry = refl }
upserted-AllStorable input (some j) e h = h

module _ (c : JobCollection) where
  open c use {
    Db, doc, find_one_and_update, find_one_or_insert, update-doc, update-doc_ne, insert-doc,
    insert-doc_ne, update_many-doc,
  }

  -- Every document of the collection.
  abbrev pub Storable : Db → Type 0
  Storable d = (k : String) → AllStorable (doc d k)

  update-Storable :
      (f : JobFilter) (u : JobUpdate)
      → ((j : Job) → matches f j ≡ true → IsStorable j → IsStorable (apply u j))
      → (d : Db) → Storable d
      → Storable (find_one_and_update f u d).1
  update-Storable f u keep d h k = elim (str_eq-cases f.job_id k) [
    | inr (_, other) ↦ rw (update-doc_ne f u k d other) (h k)
    | inl same ↦
        subst (λ i. AllStorable (doc (find_one_and_update f u d).1 i)) same
          (elim (update-doc f u d) [
            | inl lost ↦ rw lost (h f.job_id)
            | inr done ↦ rw done (written-AllStorable f u keep (doc d f.job_id) (h f.job_id))
          ])
  ]

  insert-Storable :
      (input : EnqueueJobInput) (d : Db)
      → job_valid (new_job input) ≡ true
      → Storable d
      → Storable (find_one_or_insert (new_job input) d).1
  insert-Storable input d e h k =
      let j = new_job input in
      elim (str_eq-cases j.job_id k) [
        | inr (_, other) ↦ rw (insert-doc_ne j k d other) (h k)
        | inl same ↦
            subst (λ i. AllStorable (doc (find_one_or_insert j d).1 i)) same
              (elim (insert-doc j d) [
                | inl lost ↦ rw lost (h j.job_id)
                | inr done ↦ rw done (upserted-AllStorable input (doc d j.job_id) e (h j.job_id))
              ])
      ]

  perform-Storable : (w : Write) (d : Db) → Creates w → Storable d → Storable (perform c w d)
  unfolding perform create_job claim_job mark_completed mark_failed mark_dead cancel_job
      reset_stale_jobs
  perform-Storable (Write.creates input) d e h = insert-Storable input d e h
  perform-Storable (Write.claims i v now) d e h =
      update-Storable _ _ (λ j. claim-IsStorable now j i v now) d h
  perform-Storable (Write.completes i v at now) d e h =
      update-Storable _ _ (λ j. complete-IsStorable now j i v at) d h
  perform-Storable (Write.fails i v m next now) d e h =
      update-Storable _ _ (λ j. fail-IsStorable now j i v m next) d h
  perform-Storable (Write.kills i v now) d e h =
      update-Storable _ _ (λ j _. dead-IsStorable now j i v) d h
  perform-Storable (Write.cancels i now) d e h =
      update-Storable _ _ (λ j _. cancel-IsStorable now j) d h
  perform-Storable (Write.resets age now) d e h = λ k.
      elim (update_many-doc (stale_filter now age) stale_update k d) [
        | inl lost ↦ rw lost (h k)
        | inr done ↦ rw done (restarted-AllStorable now age (doc d k) (h k))
      ]

  -- Through any history of write calls, whether they return or throw, in which the jobs that are created
  -- fit the schema: every stored document fits it, although no update is validated, and a document that
  -- is pending or running has no time at which it is removed, while one that is completed or failed has.
  pub perform_all-Storable :
      (ws : List Write) (d : Db) → All Creates ws → Storable d → Storable (perform_all c ws d)
  unfolding perform_all
  perform_all-Storable [] d e h = h
  perform_all-Storable (w ∷ ws) d e h =
      perform_all-Storable ws (perform c w d) e.1 (perform-Storable w d e.0 h)
