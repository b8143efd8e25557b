-- ===== src/Jobs/Update.antt =====
-- The filters and updates that src/domains/job/job.repository.ts hands to the database, as data,
-- and the hook that src/domains/job/job.model.ts runs on an update before it is sent.
use hyperscale_job_scheduler.Base.{
  ℕ, ◌+◌, ◌*◌, String, Bool, true, false, ◌&&◌, Option, none, some, ◌==◌, ltb, if◌then◌else◌,
}
use hyperscale_job_scheduler.Exec.{Message}
use hyperscale_job_scheduler.Types.{Job, JobStatus, completed, failed, status_eq}
use hyperscale_job_scheduler.Constants.{completed_job_ttl_seconds}

-- { jobId, status?, version? }
pub record JobFilter : Type 0 where
  pub job_id : String
  pub status : Option JobStatus
  pub version : Option ℕ

-- { status, startedAt: { $lt: cutoff } }
pub record StaleFilter : Type 0 where
  pub status : JobStatus
  pub started_before : ℕ

-- The fields that the repository writes with `$set`.
pub record JobSet : Type 0 where
  pub status : Option JobStatus
  pub started_at : Option ℕ
  pub last_attempt_at : Option ℕ
  pub completed_at : Option ℕ
  pub last_error : Option Message
  pub next_run_at : Option ℕ
  pub version : Option ℕ
  pub expires_at : Option ℕ

pub record JobUpdate : Type 0 where
  pub set : JobSet
  pub unset_started_at : Bool
  pub inc_attempts : ℕ

abbrev pub no_set : JobSet
no_set = record {
  status = none;
  started_at = none;
  last_attempt_at = none;
  completed_at = none;
  last_error = none;
  next_run_at = none;
  version = none;
  expires_at = none;
}

abbrev pub set_only : JobSet → JobUpdate
set_only s = record { set = s; unset_started_at = false; inc_attempts = 0 }

-- JobSchema.pre("findOneAndUpdate"): a terminal status sets the time at which the document expires.
unfoldable pub pre_find_one_and_update : ℕ → JobUpdate → JobUpdate
pre_find_one_and_update now u = elim u.set.status [
  | some completed ↦ expiring
  | some failed ↦ expiring
  | _ ↦ u
]
  where
    expiring : JobUpdate
    expiring = record u {
      set = record (u.set) { expires_at = some (now + completed_job_ttl_seconds * 1000) };
    }

-- The documented meaning of these filters and of `$set`, `$unset` and `$inc`, on which the
-- collection's laws rest.
abbrev given {ℓ} : {A : Type ℓ} → (A → Bool) → Option A → Bool
given p none = true
given p (some a) = p a

-- `matches` is asked of the document that has the filter's `jobId`.
unfoldable pub matches : JobFilter → Job → Bool
matches f j = given (status_eq j.status) f.status && given (λ v. j.version == v) f.version

unfoldable pub is_stale : StaleFilter → Job → Bool
is_stale f j =
    status_eq j.status f.status
    && (elim j.started_at [ none ↦ false | some t ↦ ltb t f.started_before ])

abbrev or_kept {ℓ} : {A : Type ℓ} → Option A → A → A
or_kept none a = a
or_kept (some b) a = b

abbrev or_else {ℓ} : {A : Type ℓ} → Option A → Option A → Option A
or_else none o = o
or_else (some b) o = some b

unfoldable pub apply : JobUpdate → Job → Job
apply u j = record j {
  status = or_kept u.set.status j.status;
  next_run_at = or_kept u.set.next_run_at j.next_run_at;
  attempts = j.attempts + u.inc_attempts;
  last_attempt_at = or_else u.set.last_attempt_at j.last_attempt_at;
  last_error = or_else u.set.last_error j.last_error;
  started_at = if u.unset_started_at then none else or_else u.set.started_at j.started_at;
  completed_at = or_else u.set.completed_at j.completed_at;
  version = or_kept u.set.version j.version;
  expires_at = or_else u.set.expires_at j.expires_at;
}

-- The document after `findOneAndUpdate`, and what the call returns with `new: true`.
unfoldable pub written : JobFilter → JobUpdate → Option Job → Option Job
unfolding matches apply
written f u none = none
written f u (some j) = if matches f j then some (apply u j) else some j

unfoldable pub returned : JobFilter → JobUpdate → Option Job → Option Job
unfolding matches apply
returned f u none = none
returned f u (some j) = if matches f j then some (apply u j) else none

unfoldable pub restarted : StaleFilter → JobUpdate → Option Job → Option Job
unfolding is_stale apply
restarted f u none = none
restarted f u (some j) = if is_stale f j then some (apply u j) else some j

-- The document after an upsert with `$setOnInsert`: an existing one is left alone.
abbrev pub upserted : Job → Option Job → Job
upserted fresh none = fresh
upserted fresh (some j) = j
