-- ===== src/Connections/MongoDb/Attempts.antt =====
-- How the attempts to connect end.
use hyperscale_job_scheduler.Base.{
  ℕ, zero, suc, ◌+◌, ◌*◌, ◌^◌, ◌≤◌, ◌==◌, true, false, ◌≡◌, refl, ap, ◌∙◌, ◌⊎◌, inl, inr, arith,
}
use hyperscale_job_scheduler.Exec.{Message, ok, err, Result-cases}
use hyperscale_job_scheduler.Connections.MongoDb.{
  MongoDriver, Dial, base_retry_delay_ms, wait_before_retry, connect_from, connect_mongodb,
}

-- The waits from this attempt on, after so many failures.
abbrev pub waits : ℕ → ℕ → ℕ
waits attempt zero = 0
waits attempt (suc k) = base_retry_delay_ms * 2 ^ attempt + waits (attempt + 1) k

module _ (m : MongoDriver) where
  open m use {Net, connect, failure_text}

  -- So many calls in a row throw, and leave the network so.
  pub data Failing : ℕ → Net → Net → Type 0 where
    none_yet : (n : Net) → Failing 0 n n
    failed :
        (k : ℕ) (e : Message) (n n' : Net)
        → (connect n).0 ≡ err e
        → Failing k (connect n).1 n'
        → Failing (suc k) n n'

  -- A call succeeds after so many failures.
  pub record Connected (from left attempt : ℕ) (d : Dial Net) : Type 0 where
    pub failures : ℕ
    pub net : Net
    pub soon : failures ≤ left
    pub failing : Failing failures d.net net
    pub succeeds : (connect net).0 ≡ ok tt
    pub returns : connect_from m from attempt d ≡ (
      ok tt,
      record { net = (connect net).1; waited_ms = d.waited_ms + waits attempt failures },
    )

  -- All calls throw.
  pub record Refused (from left attempt : ℕ) (d : Dial Net) : Type 0 where
    pub net : Net
    pub error : Message
    pub failing : Failing left d.net net
    pub fails : (connect net).0 ≡ err error
    pub throws : connect_from m from attempt d ≡ (
      err (failure_text error),
      record { net = (connect net).1; waited_ms = d.waited_ms + waits attempt left },
    )

module _ (m : MongoDriver) where
  open m use {Net, connect, failure_text}

  succeeded :
      (left attempt : ℕ) (d : Dial Net)
      → (connect d.net).0 ≡ ok tt
      → connect_from m (suc left) attempt d ≡ (ok tt, record d { net = (connect d.net).1 })
  unfolding connect_from
  succeeded left attempt d p = rw p refl

  gave_up :
      (left attempt : ℕ) (d : Dial Net) (e : Message)
      → (attempt == 4) ≡ true
      → (connect d.net).0 ≡ err e
      → connect_from m (suc left) attempt d
        ≡ (err (failure_text e), record d { net = (connect d.net).1 })
  unfolding connect_from
  gave_up left attempt d e last p = rw (p, last) refl

  retried :
      (left attempt : ℕ) (d : Dial Net) (e : Message)
      → (attempt == 4) ≡ false
      → (connect d.net).0 ≡ err e
      → connect_from m (suc left) attempt d
        ≡ connect_from m left (attempt + 1) (record {
          net = (connect d.net).1;
          waited_ms = d.waited_ms + base_retry_delay_ms * 2 ^ attempt;
        })
  unfolding connect_from wait_before_retry
  retried left attempt d e early p = rw (p, early) refl

  at_once :
      (left attempt : ℕ) (d : Dial Net)
      → (connect d.net).0 ≡ ok tt
      → Connected m (suc left) left attempt d
  at_once left attempt d p = record {
    failures = 0;
    net = d.net;
    soon = omega arith;
    failing = Failing.none_yet d.net;
    succeeds = p;
    returns =
        succeeded left attempt d p
        ∙ ap (λ w. (ok tt, record { net = (connect d.net).1; waited_ms = w })) (omega arith);
  }

  later :
      (left attempt : ℕ) (d : Dial Net) (e : Message)
      → (attempt == 4) ≡ false
      → (connect d.net).0 ≡ err e
      → let d' : Dial Net = record {
        net = (connect d.net).1;
        waited_ms = d.waited_ms + base_retry_delay_ms * 2 ^ attempt;
      } in
        Connected m (suc left) left (attempt + 1) d' ⊎ Refused m (suc left) left (attempt + 1) d'
        → Connected m (suc (suc left)) (suc left) attempt d
          ⊎ Refused m (suc (suc left)) (suc left) attempt d
  later left attempt d e early p (inl c) = inl (record {
    failures = suc c.failures;
    net = c.net;
    soon = omega (arith, c.soon);
    failing = Failing.failed c.failures e d.net c.net p c.failing;
    succeeds = c.succeeds;
    returns =
        retried (suc left) attempt d e early p
        ∙ c.returns
        ∙ ap (λ w. (ok tt, record { net = (connect c.net).1; waited_ms = w })) (omega arith);
  })
  later left attempt d e early p (inr c) = inr (record {
    net = c.net;
    error = c.error;
    failing = Failing.failed left e d.net c.net p c.failing;
    fails = c.fails;
    throws =
        retried (suc left) attempt d e early p
        ∙ c.throws
        ∙ ap (λ w. (err (failure_text c.error), record { net = (connect c.net).1; waited_ms = w }))
            (omega arith);
  })

  connect_from_lem :
      (left attempt : ℕ) (d : Dial Net)
      → attempt + left ≡ 4
      → Connected m (suc left) left attempt d ⊎ Refused m (suc left) left attempt d
  connect_from_lem zero attempt d last = elim (Result-cases (connect d.net).0) [
    | inr (u, p) ↦ inl (at_once 0 attempt d p)
    | inl (e, p) ↦ inr (record {
      net = d.net;
      error = e;
      failing = Failing.none_yet d.net;
      fails = p;
      throws =
          gave_up 0 attempt d e (ground (arith, last)) p
          ∙ ap (λ w. (err (failure_text e), record { net = (connect d.net).1; waited_ms = w }))
              (omega arith);
    })
  ]
  connect_from_lem (suc left) attempt d last = elim (Result-cases (connect d.net).0) [
    | inr (u, p) ↦ inl (at_once (suc left) attempt d p)
    | inl (e, p) ↦
        later left attempt d e (ground (arith, last)) p
          (connect_from_lem left (attempt + 1) _ (omega arith))
  ]

  -- connectMongoDB always ends: either one of five calls succeeds after k failures, and it returns
  -- there, having waited 2000, 4000, ... ms after each failure, or all five throw, and it throws with
  -- the text of the last, having waited 30000 ms.
  pub connect_mongodb_lem :
      (d : Dial Net)
      → ((k : ℕ) × ((n : Net) × ((k ≤ 4)
              × (Failing m k d.net n
                  × (((connect n).0 ≡ ok tt)
                      × (connect_mongodb m d ≡ (
                        ok tt,
                        record { net = (connect n).1; waited_ms = d.waited_ms + waits 0 k },
                      )))))))
        ⊎ ((e : Message) × ((n : Net) × (Failing m 4 d.net n
                × (((connect n).0 ≡ err e)
                    × (connect_mongodb m d ≡ (
                      err (failure_text e),
                      record { net = (connect n).1; waited_ms = d.waited_ms + 30000 },
                    ))))))
  unfolding connect_mongodb
  connect_mongodb_lem d = elim (connect_from_lem 4 0 d refl) [
    | inl c ↦ inl (c.failures, (c.net, (c.soon, (c.failing, (c.succeeds, c.returns)))))
    | inr c ↦ inr (c.error, (c.net, (c.failing, (c.fails, c.throws))))
  ]
