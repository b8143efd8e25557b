-- ===== src/DeadLetters/Atomicity.antt =====
-- A dead letter and its outbox event are written together or not at all.
use hyperscale_job_scheduler.Base.{some, ap, ℕ, [], ◌∷◌, ◌++◌, ◌≡◌, ◌≢◌, ◌∙◌, ◌⊎◌, inl, inr, arith}
use hyperscale_job_scheduler.Exec.{Message, ok, Result-cases}
use hyperscale_job_scheduler.Types.{Job}
use hyperscale_job_scheduler.Services.Letters.{LetterStore}
use hyperscale_job_scheduler.DeadLetters.{
  letter_of, dead_letter_input, dead_event, create_body, create,
}

module _ (l : LetterStore) where
  open l use {
    Store, Session, letters, outbox, staged_letters, staged_events, start_session, end_session,
    insert_letter, insert_event, with_transaction, start_session-same, end_session-same,
    stage_letter-same, stage_event-same, stage_letter-ok, stage_event-ok, transaction-ok,
    transaction-err,
  }

  -- The dead letter, with the job's attempts and error, and the pending event were appended.
  abbrev pub BothWritten : Job → Message → ℕ → Store → Store → Type 0
  BothWritten job e now z z' =
      (letters z' ≡ letters z ++ (letter_of (dead_letter_input job e now) now ∷ []))
      × (outbox z' ≡ outbox z ++ (dead_event job e now ∷ []))

  abbrev pub NeitherWritten : Store → Store → Type 0
  NeitherWritten z z' = (letters z' ≡ letters z) × (outbox z' ≡ outbox z)

  module _ (job : Job) (e : Message) (now : ℕ) (s : Session) where
    -- Every write of the callback is in the session.
    create_body-same : (z : Store) → NeitherWritten z (create_body l job e now s z).1
    unfolding create_body
    create_body-same z =
        let d = letter_of (dead_letter_input job e now) now in
        let staged = stage_letter-same s d z in
        elim (Result-cases (insert_letter (some s) d z).0) [
          | inl (x, p) ↦ ground (arith, p, staged)
          | inr (u, p) ↦ ground (
            arith,
            p,
            staged,
            stage_event-same s (dead_event job e now) (insert_letter (some s) d z).1,
          )
        ]

    create_body-ok :
        (z : Store)
        → (create_body l job e now s z).0 ≡ ok tt
        → (staged_letters s (create_body l job e now s z).1
            ≡ staged_letters s z ++ (letter_of (dead_letter_input job e now) now ∷ []))
          × (staged_events s (create_body l job e now s z).1
              ≡ staged_events s z ++ (dead_event job e now ∷ []))
    unfolding create_body
    create_body-ok z h =
        let d = letter_of (dead_letter_input job e now) now in
        elim (Result-cases (insert_letter (some s) d z).0) [
          | inl (x, p) ↦ ground (arith, p)
          | inr (u, p) ↦ ground (
            arith,
            p,
            stage_letter-ok s d z p,
            stage_event-ok s (dead_event job e now) (insert_letter (some s) d z).1,
          )
        ]

    -- What a run that began with nothing staged has staged.
    staged :
        (y : Store)
        → staged_letters s y ≡ []
        → staged_events s y ≡ []
        → (create_body l job e now s y).0 ≡ ok tt
        → (staged_letters s (create_body l job e now s y).1
            ≡ letter_of (dead_letter_input job e now) now ∷ [])
          × (staged_events s (create_body l job e now s y).1 ≡ dead_event job e now ∷ [])
    staged y no_letters no_events ran =
        let (written, queued) = create_body-ok y ran in
        (
          written ∙ ap (λ xs. xs ++ (letter_of (dead_letter_input job e now) now ∷ [])) no_letters,
          queued ∙ ap (λ xs. xs ++ (dead_event job e now ∷ [])) no_events,
        )

    finished :
        (z : Store)
        → BothWritten job e now z (with_transaction s (create_body l job e now s) z).1
          ⊎ (NeitherWritten z (with_transaction s (create_body l job e now s) z).1
              × ((with_transaction s (create_body l job e now s) z).0 ≢ ok tt))
    finished z = elim (Result-cases (with_transaction s (create_body l job e now s) z).0) [
      | inl (x, p) ↦ elim (transaction-err s (create_body l job e now s) z x create_body-same p) [
        | inl aborted ↦ inr (aborted, λ q. cc)
        | inr (y, no_letters, no_events, ran, written, queued) ↦
            let (d, x) = staged y no_letters no_events ran in
            inl (written ∙ ap (λ xs. letters z ++ xs) d, queued ∙ ap (λ xs. outbox z ++ xs) x)
      ]
      | inr (u, p) ↦
          let (y, no_letters, no_events, ran, written, queued) =
            transaction-ok s (create_body l job e now s) z create_body-same p in
          let (d, x) = staged y no_letters no_events ran in
          inl (written ∙ ap (λ xs. letters z ++ xs) d, queued ∙ ap (λ xs. outbox z ++ xs) x)
    ]

  -- Whatever the database answers, also where a commit has no known result, `create` appends both the
  -- dead letter and its pending job.dead event or neither of them, and it throws in the second case.
  pub create_atomic :
      (job : Job) (e : Message) (now : ℕ) (z : Store)
      → BothWritten job e now z (create l job e now z).1
        ⊎ (NeitherWritten z (create l job e now z).1 × ((create l job e now z).0 ≢ ok tt))
  unfolding create
  create_atomic job e now z =
      let begun = start_session-same z in
      elim (Result-cases (start_session z).0) [
        | inl (x, p) ↦ inr (ground (arith, p, begun), ground (arith, p))
        | inr (s, p) ↦
            let z' = (start_session z).1 in
            let ended = end_session-same s (with_transaction s (create_body l job e now s) z').1 in
            elim (finished job e now s z') [
              | inl written ↦ inl (ground (arith, p, begun, ended, written))
              | inr (same, failed) ↦
                  inr (ground (arith, p, begun, ended, same), λ h. failed (ground (arith, p, h)))
            ]
      ]
