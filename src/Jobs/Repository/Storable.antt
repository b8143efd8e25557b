-- ===== src/Jobs/Repository/Storable.antt =====
-- What one update of src/domains/job/job.repository.ts keeps of a document: that its schema holds, and
-- that it expires only once it is settled.
use hyperscale_job_scheduler.Base.{
  ℕ, String, true, Option, none, some, ◌≡◌, refl, arith, length, length-take, take, leb,
}
use hyperscale_job_scheduler.Exec.{Message}
use hyperscale_job_scheduler.Types.{
  status_eq, Job, JobStatus, pending, running, completed, failed, dead,
}
use hyperscale_job_scheduler.Jobs.Schema.{job_valid}
use hyperscale_job_scheduler.Jobs.Update.{pre_find_one_and_update, matches, is_stale, apply}
use hyperscale_job_scheduler.Jobs.Repository.{
  claim_filter, claim_update, running_filter, completed_update, failed_update, dead_update,
  cancel_update, stale_filter, stale_update,
}

-- A job that waits or runs has no time at which its document is removed; one that is completed or
-- failed has.
abbrev pub Expiry : JobStatus → Option ℕ → Type 0
Expiry pending at = at ≡ none
Expiry running at = at ≡ none
Expiry completed at = (t : ℕ) × (at ≡ some t)
Expiry failed at = (t : ℕ) × (at ≡ some t)
Expiry dead at = Unit {0}

pub record IsStorable (j : Job) : Type 0 where
  pub valid : job_valid j ≡ true
  pub expiry : Expiry j.status j.expires_at

take_fits : (n : ℕ) (xs : Message) → leb (length (take n xs)) n ≡ true
take_fits n xs = ground (arith, length-take n xs)

pending_unexpired :
    (st : JobStatus) (at : Option ℕ) → status_eq st pending ≡ true → Expiry st at → at ≡ none
pending_unexpired pending at e h = h
pending_unexpired running at e h = h
pending_unexpired completed at e h = absurd (cc)
pending_unexpired failed at e h = absurd (cc)
pending_unexpired dead at e h = absurd (cc)

running_unexpired :
    (st : JobStatus) (at : Option ℕ) → status_eq st running ≡ true → Expiry st at → at ≡ none
running_unexpired pending at e h = h
running_unexpired running at e h = h
running_unexpired completed at e h = absurd (cc)
running_unexpired failed at e h = absurd (cc)
running_unexpired dead at e h = absurd (cc)

module _ (t : ℕ) (j : Job) where
  pub claim-IsStorable :
      (k : String) (v now : ℕ)
      → matches (claim_filter k v) j ≡ true
      → IsStorable j
      → IsStorable (apply (pre_find_one_and_update t (claim_update v now)) j)
  unfolding matches apply claim_filter claim_update pre_find_one_and_update job_valid
  claim-IsStorable k v now h s = record {
    valid = s.valid;
    expiry = pending_unexpired j.status j.expires_at (ground arith) s.expiry;
  }

  pub complete-IsStorable :
      (k : String) (v at : ℕ)
      → matches (running_filter k v) j ≡ true
      → IsStorable j
      → IsStorable (apply (pre_find_one_and_update t (completed_update v at)) j)
  unfolding matches apply running_filter completed_update pre_find_one_and_update job_valid
  complete-IsStorable k v at h s = record { valid = s.valid; expiry = (_, refl) }

  pub fail-IsStorable :
      (k : String) (v : ℕ) (e : Message) (next : ℕ)
      → matches (running_filter k v) j ≡ true
      → IsStorable j
      → IsStorable (apply (pre_find_one_and_update t (failed_update v e next)) j)
  unfolding matches apply running_filter failed_update pre_find_one_and_update job_valid
  fail-IsStorable k v e next h s = record {
    valid = ground (arith, s.valid, take_fits 2000 e);
    expiry = (_, refl);
  }

  pub dead-IsStorable :
      (k : String) (v : ℕ)
      → IsStorable j
      → IsStorable (apply (pre_find_one_and_update t (dead_update v)) j)
  unfolding apply dead_update pre_find_one_and_update job_valid
  dead-IsStorable k v s = record { valid = s.valid; expiry = tt }

  pub cancel-IsStorable :
      IsStorable j → IsStorable (apply (pre_find_one_and_update t cancel_update) j)
  unfolding apply cancel_update pre_find_one_and_update job_valid
  cancel-IsStorable s = record { valid = s.valid; expiry = tt }

  pub stale-IsStorable :
      (age : ℕ)
      → is_stale (stale_filter t age) j ≡ true
      → IsStorable j
      → IsStorable (apply stale_update j)
  unfolding is_stale apply stale_filter stale_update job_valid
  stale-IsStorable age h s = record {
    valid = s.valid;
    expiry = running_unexpired j.status j.expires_at (ground arith) s.expiry;
  }
