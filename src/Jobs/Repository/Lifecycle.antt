-- ===== src/Jobs/Repository/Lifecycle.antt =====
-- The life of one document under the write calls of src/domains/job/job.repository.ts, whoever
-- makes them: the status diagram, and the calls as data.
pub mod Moves
pub mod Transitions
pub mod Claims
use hyperscale_job_scheduler.Base.{ℕ, ◌+◌, String, Option, none, some, List, [], ◌∷◌, ◌≡◌, refl}
use hyperscale_job_scheduler.Exec.{Message}
use hyperscale_job_scheduler.Types.{Job, EnqueueJobInput, pending, running, completed, failed, dead}
use hyperscale_job_scheduler.Jobs.Collection.{JobCollection}
use hyperscale_job_scheduler.Jobs.Repository.{
  create_job, claim_job, mark_completed, mark_failed, mark_dead, cancel_job, reset_stale_jobs,
}

-- What no update of the repository writes.
pub record SameOrigin (j j' : Job) : Type 0 where
  pub job_id : j'.job_id ≡ j.job_id
  pub job_type : j'.job_type ≡ j.job_type
  pub tenant_id : j'.tenant_id ≡ j.tenant_id
  pub priority : j'.priority ≡ j.priority
  pub scheduled_at : j'.scheduled_at ≡ j.scheduled_at
  pub max_attempts : j'.max_attempts ≡ j.max_attempts
  pub payload : j'.payload ≡ j.payload

-- The edges of the status diagram, with what they do to the version and to the attempts.
pub data Move (j j' : Job) : Type 0 where
  stays : j' ≡ j → Move j j'
  claims :
      j.status ≡ pending
      → j'.status ≡ running
      → j'.version ≡ j.version + 1
      → j'.attempts ≡ j.attempts + 1
      → SameOrigin j j'
      → Move j j'
  completes :
      j.status ≡ running
      → j'.status ≡ completed
      → j'.version ≡ j.version + 1
      → j'.attempts ≡ j.attempts
      → SameOrigin j j'
      → Move j j'
  fails :
      j.status ≡ running
      → j'.status ≡ failed
      → j'.version ≡ j.version + 1
      → j'.attempts ≡ j.attempts
      → SameOrigin j j'
      → Move j j'
  dies :
      j'.status ≡ dead
      → j'.version ≡ j.version + 1
      → j'.attempts ≡ j.attempts
      → SameOrigin j j'
      → Move j j'
  cancels :
      j.status ≡ pending
      → j'.status ≡ dead
      → j'.version ≡ j.version
      → j'.attempts ≡ j.attempts
      → SameOrigin j j'
      → Move j j'
  restarts :
      j.status ≡ running
      → j'.status ≡ pending
      → j'.version ≡ j.version
      → j'.attempts ≡ j.attempts
      → SameOrigin j j'
      → Move j j'

-- A document is inserted pending, at version 0 and with no attempt, and is never removed.
abbrev pub Transition : Option Job → Option Job → Type 0
Transition none none = Unit
Transition none (some j) = (j.status ≡ pending) × (j.version ≡ 0) × (j.attempts ≡ 0)
Transition (some j) none = ⊥
Transition (some j) (some j') = Move j j'

pub Transition-refl : (o : Option Job) → Transition o o
Transition-refl none = tt
Transition-refl (some j) = stays refl

-- The write calls of JobRepository.
pub data Write : Type 0 where
  creates : EnqueueJobInput → Write
  claims : String → ℕ → ℕ → Write
  completes : String → ℕ → ℕ → ℕ → Write
  fails : String → ℕ → Message → ℕ → ℕ → Write
  kills : String → ℕ → ℕ → Write
  cancels : String → ℕ → Write
  resets : ℕ → ℕ → Write

module _ (c : JobCollection) where
  open c use {Db, doc}

  -- The collection after a call, whether it returned or threw.
  unfoldable pub perform : Write → Db → Db
  perform (Write.creates input) d = (create_job c input d).1
  perform (Write.claims k v now) d = (claim_job c k v now d).1
  perform (Write.completes k v at now) d = (mark_completed c k v at now d).1
  perform (Write.fails k v e next now) d = (mark_failed c k v e next now d).1
  perform (Write.kills k v now) d = (mark_dead c k v now d).1
  perform (Write.cancels k now) d = (cancel_job c k now d).1
  perform (Write.resets age now) d = (reset_stale_jobs c age now d).1

  unfoldable pub perform_all : List Write → Db → Db
  perform_all [] d = d
  perform_all (w ∷ ws) d = perform_all ws (perform w d)
