-- ===== src/Jobs/Repository/Lifecycle/Transitions.antt =====
-- Every write call of src/domains/job/job.repository.ts takes every document along the diagram.
use hyperscale_job_scheduler.Base.{
  ℕ, String, true, Option, none, some, ◌≡◌, refl, inl, inr, str_eq-cases, subst,
}
use hyperscale_job_scheduler.Types.{Job, EnqueueJobInput}
use hyperscale_job_scheduler.Jobs.Update.{JobFilter, JobUpdate, matches, apply, upserted}
use hyperscale_job_scheduler.Jobs.Collection.{JobCollection}
use hyperscale_job_scheduler.Jobs.Repository.{
  new_job, create_job, claim_job, mark_completed, mark_failed, mark_dead, cancel_job,
  reset_stale_jobs, stale_filter, stale_update,
}
use hyperscale_job_scheduler.Jobs.Repository.Lifecycle.{
  Move, stays, Transition, Transition-refl, Write, perform,
}
use hyperscale_job_scheduler.Jobs.Repository.Lifecycle.Moves.{
  written-Transition, restarted-Transition, claim-Move, complete-Move, fail-Move, dead-Move,
  cancel-Move, stale-Move,
}

module _ (c : JobCollection) where
  open c use {
    Db, doc, find_one_and_update, find_one_or_insert, update-doc, update-doc_ne, insert-doc,
    insert-doc_ne, update_many, update_many-doc,
  }

  update-Transition :
      (f : JobFilter) (u : JobUpdate)
      → ((j : Job) → matches f j ≡ true → Move j (apply u j))
      → (k : String) (d : Db) → Transition (doc d k) (doc (find_one_and_update f u d).1 k)
  update-Transition f u move k d = elim (str_eq-cases f.job_id k) [
    | inr (_, other) ↦ rw (update-doc_ne f u k d other) (Transition-refl (doc d k))
    | inl same ↦
        subst (λ i. Transition (doc d i) (doc (find_one_and_update f u d).1 i)) same
          (elim (update-doc f u d) [
            | inl lost ↦ rw lost (Transition-refl (doc d f.job_id))
            | inr done ↦ rw done (written-Transition f u move (doc d f.job_id))
          ])
  ]

  upserted-Transition :
      (input : EnqueueJobInput) (o : Option Job) → Transition o (some (upserted (new_job input) o))
  unfolding new_job
  upserted-Transition input none = (refl, refl, refl)
  upserted-Transition input (some j) = stays refl

  insert-Transition :
      (input : EnqueueJobInput) (k : String) (d : Db)
      → Transition (doc d k) (doc (find_one_or_insert (new_job input) d).1 k)
  insert-Transition input k d =
      let j = new_job input in
      elim (str_eq-cases j.job_id k) [
        | inr (_, other) ↦ rw (insert-doc_ne j k d other) (Transition-refl (doc d k))
        | inl same ↦
            subst (λ i. Transition (doc d i) (doc (find_one_or_insert j d).1 i)) same
              (elim (insert-doc j d) [
                | inl lost ↦ rw lost (Transition-refl (doc d j.job_id))
                | inr done ↦ rw done (upserted-Transition input (doc d j.job_id))
              ])
      ]

  reset-Transition :
      (age now : ℕ) (k : String) (d : Db)
      → Transition (doc d k) (doc (reset_stale_jobs c age now d).1 k)
  unfolding reset_stale_jobs
  reset-Transition age now k d = elim (update_many-doc (stale_filter now age) stale_update k d) [
    | inl lost ↦ rw lost (Transition-refl (doc d k))
    | inr done ↦ rw done (
        restarted-Transition (stale_filter now age) stale_update (λ j. stale-Move now j age)
          (doc d k))
  ]

  -- Whatever write call is made, and whether it returns or throws, every document of the collection
  -- stays as it is or moves along one edge of the status diagram.
  pub perform-Transition :
      (w : Write) (k : String) (d : Db) → Transition (doc d k) (doc (perform c w d) k)
  unfolding perform create_job claim_job mark_completed mark_failed mark_dead cancel_job
  perform-Transition (Write.creates input) k d = insert-Transition input k d
  perform-Transition (Write.claims i v now) k d =
      update-Transition _ _ (λ j. claim-Move now j i v now) k d
  perform-Transition (Write.completes i v at now) k d =
      update-Transition _ _ (λ j. complete-Move now j i v at) k d
  perform-Transition (Write.fails i v e next now) k d =
      update-Transition _ _ (λ j. fail-Move now j i v e next) k d
  perform-Transition (Write.kills i v now) k d =
      update-Transition _ _ (λ j. dead-Move now j i v) k d
  perform-Transition (Write.cancels i now) k d =
      update-Transition _ _ (λ j. cancel-Move now j i) k d
  perform-Transition (Write.resets age now) k d = reset-Transition age now k d
