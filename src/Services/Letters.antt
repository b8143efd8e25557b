-- ===== src/Services/Letters.antt =====
-- The dead letters and the outbox events: their documents (src/domains/dead-letter/
-- dead-letter.model.ts, src/infra/models/OutboxModel.ts), and the database behind them, whose
-- transactions are parameters with their documented behaviour.
use hyperscale_job_scheduler.Base.{
  ℕ, String, Bool, false, ◌&&◌, Option, none, some, ◌⊎◌, List, [], ◌∷◌, ◌++◌, length, leb, ◌≡◌,
}
use hyperscale_job_scheduler.Exec.{Exec, Message, ok, err}
use hyperscale_job_scheduler.Types.{JobType, JobPayload}
use hyperscale_job_scheduler.Services.Events.{JobDeadEvent}

pub record DeadLetterError : Type 0 where
  pub attempt : ℕ
  pub error : Message
  pub occurred_at : ℕ

pub record DeadLetter : Type 0 where
  pub job_id : String
  pub job_type : JobType
  pub tenant_id : String
  pub payload : JobPayload
  pub attempts : ℕ
  pub errors : List DeadLetterError
  pub dead_at : ℕ
  pub resolved_at : Option ℕ
  pub resolved_by : Option String
  pub resolution : Option Message
  pub expires_at : ℕ

pub data OutboxStatus : Type 0 where
  pending completed dead : OutboxStatus

pub record OutboxEvent : Type 0 where
  pub type : String
  pub payload : JobDeadEvent
  pub status : OutboxStatus
  pub retry_count : ℕ
  pub last_error : Option Message
  pub processed_at : Option ℕ

-- The schema's validators: lengths, minima, and at most ten errors. The service gives an error no
-- `stack`; that the identifiers are not empty is left out.
abbrev error_fits : List DeadLetterError → Bool
error_fits [] = Bool.true
error_fits (x ∷ xs) = (leb 1 (length x.error) && leb (length x.error) 2000) && error_fits xs

unfoldable pub letter_valid : DeadLetter → Bool
letter_valid d = leb 1 d.attempts && (leb (length d.errors) 10 && error_fits d.errors)

-- A database with two collections and with sessions. A write outside of a session takes effect at once;
-- a write in a session is staged for the session's transaction.
pub record LetterStore : Type 1 where
  pub Store : Type 0
  pub Session : Type 0
  pub letters : Store → List DeadLetter
  pub outbox : Store → List OutboxEvent
  pub staged_letters : Session → Store → List DeadLetter
  pub staged_events : Session → Store → List OutboxEvent
  pub start_session : Exec Store Session
  pub end_session : Session → Exec Store (Unit {0})
  -- Model.create, with the session of its options.
  pub insert_letter : Option Session → DeadLetter → Exec Store (Unit {0})
  pub insert_event : Option Session → OutboxEvent → Exec Store (Unit {0})
  -- session.withTransaction
  pub with_transaction : Session → Exec Store (Unit {0}) → Exec Store (Unit {0})
  pub start_session-same :
      (z : Store)
      → (letters (start_session z).1 ≡ letters z) × (outbox (start_session z).1 ≡ outbox z)
  pub end_session-same :
      (s : Session) (z : Store)
      → (letters (end_session s z).1 ≡ letters z) × (outbox (end_session s z).1 ≡ outbox z)
  pub insert_letter-ok :
      (d : DeadLetter) (z : Store)
      → (insert_letter none d z).0 ≡ ok tt
      → (letters (insert_letter none d z).1 ≡ letters z ++ (d ∷ []))
        × (outbox (insert_letter none d z).1 ≡ outbox z)
  pub insert_event-ok :
      (x : OutboxEvent) (z : Store)
      → (insert_event none x z).0 ≡ ok tt
      → (letters (insert_event none x z).1 ≡ letters z)
        × (outbox (insert_event none x z).1 ≡ outbox z ++ (x ∷ []))
  -- Nobody sees a staged write, also where the call throws.
  pub stage_letter-same :
      (s : Session) (d : DeadLetter) (z : Store)
      → (letters (insert_letter (some s) d z).1 ≡ letters z)
        × (outbox (insert_letter (some s) d z).1 ≡ outbox z)
  pub stage_event-same :
      (s : Session) (x : OutboxEvent) (z : Store)
      → (letters (insert_event (some s) x z).1 ≡ letters z)
        × (outbox (insert_event (some s) x z).1 ≡ outbox z)
  pub stage_letter-ok :
      (s : Session) (d : DeadLetter) (z : Store)
      → (insert_letter (some s) d z).0 ≡ ok tt
      → (staged_letters s (insert_letter (some s) d z).1 ≡ staged_letters s z ++ (d ∷ []))
        × (staged_events s (insert_letter (some s) d z).1 ≡ staged_events s z)
  pub stage_event-ok :
      (s : Session) (x : OutboxEvent) (z : Store)
      → (insert_event (some s) x z).0 ≡ ok tt
      → (staged_letters s (insert_event (some s) x z).1 ≡ staged_letters s z)
        × (staged_events s (insert_event (some s) x z).1 ≡ staged_events s z ++ (x ∷ []))
  -- A document that the schema rejects is not inserted, and the call throws.
  pub insert_letter-invalid :
      (o : Option Session) (d : DeadLetter) (z : Store)
      → letter_valid d ≡ false
      → (e : Message) × ((insert_letter o d z).0 ≡ err e)
  -- The callback runs once or more often, each time with nothing staged. What a run writes outside of
  -- the session stays, whatever becomes of the transaction. For a callback that writes nothing
  -- there: where the call returns, its last run returned, and what this run staged was written.
  pub transaction-ok :
      (s : Session) (m : Exec Store (Unit {0})) (z : Store)
      → ((y : Store) → (letters (m y).1 ≡ letters y) × (outbox (m y).1 ≡ outbox y))
      → (with_transaction s m z).0 ≡ ok tt
      → (y : Store) × (staged_letters s y ≡ [])
        × (staged_events s y ≡ [])
        × ((m y).0 ≡ ok tt)
        × (letters (with_transaction s m z).1 ≡ letters z ++ staged_letters s (m y).1)
        × (outbox (with_transaction s m z).1 ≡ outbox z ++ staged_events s (m y).1)
  -- Where it throws, the transaction was aborted and nothing of it was written, or the result of the
  -- commit is unknown: the last run returned, and what it staged may have been written.
  pub transaction-err :
      (s : Session) (m : Exec Store (Unit {0})) (z : Store) (e : Message)
      → ((y : Store) → (letters (m y).1 ≡ letters y) × (outbox (m y).1 ≡ outbox y))
      → (with_transaction s m z).0 ≡ err e
      → ((letters (with_transaction s m z).1 ≡ letters z)
          × (outbox (with_transaction s m z).1 ≡ outbox z))
        ⊎ ((y : Store) × (staged_letters s y ≡ [])
            × (staged_events s y ≡ [])
            × ((m y).0 ≡ ok tt)
            × (letters (with_transaction s m z).1 ≡ letters z ++ staged_letters s (m y).1)
            × (outbox (with_transaction s m z).1 ≡ outbox z ++ staged_events s (m y).1))
