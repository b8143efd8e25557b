-- ===== src/Exec/Achieves.antt =====
-- What holds after a method that returned, whatever held before: one rule for each way to build a
-- method.
use hyperscale_job_scheduler.Base.{◌≡◌, refl}
use hyperscale_job_scheduler.Exec.{
  Exec, Message, Result, ok, err, throw, recover, try_catch, continue, ◌>>=◌,
}
use hyperscale_job_scheduler.Exec.Keeps.{Keeps}

pub record Achieves {ℓ} {S A : Type ℓ} (Post : S → Type ℓ) (body : Exec S A) : Type ℓ where
  pub achieved : (w : S) (x : A) → (body w).0 ≡ ok x → Post (body w).1

module _ {ℓ} {S A B : Type ℓ} {Post : S → Type ℓ} where
  kept_on :
      (rest : A → Exec S B) (given : Result A) (w : S) (y : B)
      → ((x : A) → Keeps Post (rest x))
      → ((x : A) → given ≡ ok x → Post w)
      → (continue rest given w).0 ≡ ok y
      → Post (continue rest given w).1
  kept_on rest (ok x) w y kept first e = (kept x).holds w (first x refl)
  kept_on rest (err m) w y kept first e = absurd (cc)

  -- The first call achieves it and the rest keeps it.
  pub Achieves-first :
      (first : Exec S A) (rest : A → Exec S B)
      → Achieves Post first
      → ((x : A) → Keeps Post (rest x))
      → Achieves Post (first >>= rest)
  unfolding ◌>>=◌
  Achieves-first first rest done kept = record {
    achieved = λ w y e. kept_on rest (first w).0 (first w).1 y kept (done.achieved w) e;
  }

  then_on :
      (rest : A → Exec S B) (given : Result A) (w : S) (y : B)
      → ((x : A) → Achieves Post (rest x))
      → (continue rest given w).0 ≡ ok y
      → Post (continue rest given w).1
  then_on rest (ok x) w y done e = (done x).achieved w y e
  then_on rest (err m) w y done e = absurd (cc)

  pub Achieves-then :
      (first : Exec S A) (rest : A → Exec S B)
      → ((x : A) → Achieves Post (rest x))
      → Achieves Post (first >>= rest)
  unfolding ◌>>=◌
  Achieves-then first rest done = record {
    achieved = λ w y e. then_on rest (first w).0 (first w).1 y done e;
  }

module _ {ℓ} {S A : Type ℓ} {Post : S → Type ℓ} where
  pub Achieves-throw : (e : Message) → Achieves Post (throw {A = A} e)
  unfolding throw
  Achieves-throw e = record { achieved = λ w y q. absurd (cc) }

  recovered_on :
      (handler : Message → Exec S A) (given : Result A) (w : S) (y : A)
      → ((x : A) → given ≡ ok x → Post w)
      → ((e : Message) → Achieves Post (handler e))
      → (recover handler given w).0 ≡ ok y
      → Post (recover handler given w).1
  recovered_on handler (ok x) w y done handled e = done x refl
  recovered_on handler (err m) w y done handled e = (handled m).achieved w y e

  pub Achieves-try_catch :
      (body : Exec S A) (handler : Message → Exec S A)
      → Achieves Post body
      → ((e : Message) → Achieves Post (handler e))
      → Achieves Post (try_catch body handler)
  unfolding try_catch
  Achieves-try_catch body handler done handled = record {
    achieved = λ w y e. recovered_on handler (body w).0 (body w).1 y (done.achieved w) handled e;
  }
