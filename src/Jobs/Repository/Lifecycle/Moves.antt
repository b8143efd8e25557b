-- ===== src/Jobs/Repository/Lifecycle/Moves.antt =====
-- Each update of src/domains/job/job.repository.ts is one edge of the status diagram.
use hyperscale_job_scheduler.Base.{
  ℕ, String, true, Option, none, some, ◌≡◌, refl, inl, inr, arith, Bool-cases,
}
use hyperscale_job_scheduler.Exec.{Message}
use hyperscale_job_scheduler.Types.{Job}
use hyperscale_job_scheduler.Jobs.Update.{
  JobFilter, StaleFilter, JobUpdate, pre_find_one_and_update, matches, is_stale, apply, written,
  restarted,
}
use hyperscale_job_scheduler.Jobs.Repository.{
  claim_filter, claim_update, running_filter, completed_update, failed_update, dead_filter,
  dead_update, cancel_filter, cancel_update, stale_filter, stale_update,
}
use hyperscale_job_scheduler.Jobs.Repository.Lifecycle.{
  Move, stays, claims, completes, fails, dies, cancels, restarts, Transition,
}

pub written-Transition :
    (f : JobFilter) (u : JobUpdate)
    → ((j : Job) → matches f j ≡ true → Move j (apply u j))
    → (o : Option Job) → Transition o (written f u o)
unfolding written
written-Transition f u move none = tt
written-Transition f u move (some j) = elim (Bool-cases (matches f j)) [
  | inl hit ↦ rw hit (move j hit)
  | inr miss ↦ rw miss (stays refl)
]

pub restarted-Transition :
    (f : StaleFilter) (u : JobUpdate)
    → ((j : Job) → is_stale f j ≡ true → Move j (apply u j))
    → (o : Option Job) → Transition o (restarted f u o)
unfolding restarted
restarted-Transition f u move none = tt
restarted-Transition f u move (some j) = elim (Bool-cases (is_stale f j)) [
  | inl hit ↦ rw hit (move j hit)
  | inr miss ↦ rw miss (stays refl)
]

module _ (t : ℕ) (j : Job) where
  pub claim-Move :
      (k : String) (v now : ℕ)
      → matches (claim_filter k v) j ≡ true
      → Move j (apply (pre_find_one_and_update t (claim_update v now)) j)
  unfolding matches apply claim_filter claim_update pre_find_one_and_update
  claim-Move k v now h = claims (ground arith) refl (ground arith) refl (ground arith)

  pub complete-Move :
      (k : String) (v at : ℕ)
      → matches (running_filter k v) j ≡ true
      → Move j (apply (pre_find_one_and_update t (completed_update v at)) j)
  unfolding matches apply running_filter completed_update pre_find_one_and_update
  complete-Move k v at h =
      completes (ground arith) refl (ground arith) (ground arith) (ground arith)

  pub fail-Move :
      (k : String) (v : ℕ) (e : Message) (next : ℕ)
      → matches (running_filter k v) j ≡ true
      → Move j (apply (pre_find_one_and_update t (failed_update v e next)) j)
  unfolding matches apply running_filter failed_update pre_find_one_and_update
  fail-Move k v e next h = fails (ground arith) refl (ground arith) (ground arith) (ground arith)

  pub dead-Move :
      (k : String) (v : ℕ)
      → matches (dead_filter k v) j ≡ true
      → Move j (apply (pre_find_one_and_update t (dead_update v)) j)
  unfolding matches apply dead_filter dead_update pre_find_one_and_update
  dead-Move k v h = dies refl (ground arith) (ground arith) (ground arith)

  pub cancel-Move :
      (k : String)
      → matches (cancel_filter k) j ≡ true
      → Move j (apply (pre_find_one_and_update t cancel_update) j)
  unfolding matches apply cancel_filter cancel_update pre_find_one_and_update
  cancel-Move k h = cancels (ground arith) refl refl (ground arith) (ground arith)

  pub stale-Move :
      (age : ℕ) → is_stale (stale_filter t age) j ≡ true → Move j (apply stale_update j)
  unfolding is_stale apply stale_filter stale_update
  stale-Move age h = restarts (ground arith) refl refl (ground arith) (ground arith)
