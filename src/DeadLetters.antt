-- ===== src/DeadLetters.antt =====
-- DeadLetterService.create of src/domains/dead-letter/dead-letter.servivce.ts, with
-- DeadLetterRepository.create of src/domains/dead-letter/dead.letter.repository.ts: the dead letter
-- and its outbox event, in one transaction.
pub mod Atomicity
pub mod Queries
pub mod Resolution
use hyperscale_job_scheduler.Base.{ℕ, ◌+◌, ◌*◌, String, Option, none, some, List, [], ◌∷◌, take}
use hyperscale_job_scheduler.Exec.{Exec, Message, pure, ◌>>=◌, ◌>>◌, try_finally}
use hyperscale_job_scheduler.Types.{Job, JobType, JobPayload}
use hyperscale_job_scheduler.Constants.{dead_letter_ttl_seconds}
use hyperscale_job_scheduler.Services.Letters.{
  LetterStore, DeadLetter, DeadLetterError, OutboxEvent, OutboxStatus,
}

pub record CreateDeadLetterInput : Type 0 where
  pub job_id : String
  pub job_type : JobType
  pub tenant_id : String
  pub payload : JobPayload
  pub attempts : ℕ
  pub errors : List DeadLetterError

-- The document that the repository's `create` hands to the database, with the schema's default for
-- `expiresAt`.
unfoldable pub letter_of : CreateDeadLetterInput → ℕ → DeadLetter
letter_of input now = record {
  job_id = input.job_id;
  job_type = input.job_type;
  tenant_id = input.tenant_id;
  payload = input.payload;
  attempts = input.attempts;
  errors = take 10 input.errors;
  dead_at = now;
  resolved_at = none;
  resolved_by = none;
  resolution = none;
  expires_at = now + dead_letter_ttl_seconds * 1000;
}

unfoldable pub dead_letter_input : Job → Message → ℕ → CreateDeadLetterInput
dead_letter_input job last_error now = record {
  job_id = job.job_id;
  job_type = job.job_type;
  tenant_id = job.tenant_id;
  payload = job.payload;
  attempts = job.attempts;
  errors = record { attempt = job.attempts; error = last_error; occurred_at = now } ∷ [];
}

unfoldable pub dead_event : Job → Message → ℕ → OutboxEvent
dead_event job last_error now = record {
  type = "job.dead.topic";
  payload = record {
    job_id = job.job_id;
    job_type = job.job_type;
    tenant_id = job.tenant_id;
    total_attempts = job.attempts;
    last_error = last_error;
    dead_at = now;
  };
  status = OutboxStatus.pending;
  retry_count = 0;
  last_error = none;
  processed_at = none;
}

module _ (l : LetterStore) where
  open l use {
    Store, Session, start_session, end_session, insert_letter, insert_event, with_transaction,
  }

  -- The repository's `create`, in the session that it is given.
  unfoldable pub create_letter : CreateDeadLetterInput → Option Session → ℕ → Exec Store (Unit {0})
  unfolding letter_of
  create_letter input session now = insert_letter session (letter_of input now)

  unfoldable pub create_body : Job → Message → ℕ → Session → Exec Store (Unit {0})
  unfolding create_letter dead_letter_input dead_event ◌>>=◌
  create_body job last_error now session = do
    create_letter (dead_letter_input job last_error now) (some session) now
    insert_event (some session) (dead_event job last_error now)

  -- The service's `create`, with the time at which it runs.
  unfoldable pub create : Job → Message → ℕ → Exec Store (Unit {0})
  unfolding try_finally ◌>>=◌
  create job last_error now = do
    session ← start_session
    try_finally (with_transaction session (create_body job last_error now session))
        (end_session session)
