-- ===== src/Exec/Keeps.antt =====
-- Where a method takes the external state, whether it returns or throws: one rule for each way to
-- build a method. A method keeps a predicate when it leads from the predicate to itself.
use hyperscale_job_scheduler.Base.{Bool, true, false, if◌then◌else◌, ◌≡◌, refl}
use hyperscale_job_scheduler.Exec.{
  Exec, Message, Result, ok, err, pure, throw, recover, try_catch, try_finally, continue, ◌>>=◌,
}

pub record Leads {ℓ} {S A : Type ℓ} (Before After : S → Type ℓ) (body : Exec S A) : Type ℓ where
  pub holds : (w : S) → Before w → After (body w).1

abbrev pub Keeps {ℓ} : {S A : Type ℓ} → (S → Type ℓ) → Exec S A → Type ℓ
Keeps Inv body = Leads Inv Inv body

module _ {ℓ} {S A B : Type ℓ} {Middle After : S → Type ℓ} where
  resumed :
      (rest : A → Exec S B) (given : Result A) (w : S)
      → ((x : A) → Leads Middle After (rest x))
      → ((v : S) → Middle v → After v)
      → Middle w
      → After (continue rest given w).1
  resumed rest (ok x) w then_after thrown_after q = (then_after x).holds w q
  resumed rest (err e) w then_after thrown_after q = thrown_after w q

module _ {ℓ} {S A B : Type ℓ} {Before Middle After : S → Type ℓ} where
  -- Where the first call throws, what it leads to is what the whole leads to.
  pub Leads-bind :
      (first : Exec S A) (rest : A → Exec S B)
      → Leads Before Middle first
      → ((v : S) → Middle v → After v)
      → ((x : A) → Leads Middle After (rest x))
      → Leads Before After (first >>= rest)
  unfolding ◌>>=◌
  Leads-bind first rest led thrown_after then_after = record {
    holds = λ w q.
        let (given, v) = first w in resumed rest given v then_after thrown_after (led.holds w q);
  }

module _ {ℓ} {S A B : Type ℓ} {Inv : S → Type ℓ} where
  pub Keeps-bind :
      (first : Exec S A) (rest : A → Exec S B)
      → Keeps Inv first
      → ((x : A) → Keeps Inv (rest x))
      → Keeps Inv (first >>= rest)
  Keeps-bind first rest kept then_kept = Leads-bind first rest kept (λ v q. q) then_kept

  pub Keeps-try_finally :
      (body : Exec S A) (last : Exec S B)
      → Keeps Inv body
      → Keeps Inv last
      → Keeps Inv (try_finally body last)
  unfolding try_finally
  Keeps-try_finally body last kept last_kept = record {
    holds = λ w q. last_kept.holds (body w).1 (kept.holds w q);
  }

module _ {ℓ} {S A : Type ℓ} {After : S → Type ℓ} where
  recovered :
      (handler : Message → Exec S A) (given : Result A) (w : S)
      → ((e : Message) → Keeps After (handler e))
      → After w
      → After (recover handler given w).1
  recovered handler (ok x) w handled q = q
  recovered handler (err e) w handled q = (handled e).holds w q

module _ {ℓ} {S A : Type ℓ} {Before After : S → Type ℓ} where
  pub Leads-try_catch :
      (body : Exec S A) (handler : Message → Exec S A)
      → Leads Before After body
      → ((e : Message) → Keeps After (handler e))
      → Leads Before After (try_catch body handler)
  unfolding try_catch
  Leads-try_catch body handler led handled = record {
    holds = λ w q. recovered handler (body w).0 (body w).1 handled (led.holds w q);
  }

module _ {ℓ} {S A : Type ℓ} {Inv : S → Type ℓ} where
  pub Keeps-throw : (e : Message) → Keeps Inv (throw {A = A} e)
  unfolding throw
  Keeps-throw e = record { holds = λ w q. q }

  pub Keeps-pure : (x : A) → Keeps Inv (pure x)
  unfolding pure
  Keeps-pure x = record { holds = λ w q. q }

  pub Keeps-if :
      (test : Bool) (yes_body no_body : Exec S A)
      → Keeps Inv yes_body
      → Keeps Inv no_body
      → Keeps Inv (if test then yes_body else no_body)
  Keeps-if true yes_body no_body yes_kept no_kept = yes_kept
  Keeps-if false yes_body no_body yes_kept no_kept = no_kept

  pub Keeps-try_catch :
      (body : Exec S A) (handler : Message → Exec S A)
      → Keeps Inv body
      → ((e : Message) → Keeps Inv (handler e))
      → Keeps Inv (try_catch body handler)
  Keeps-try_catch body handler kept handled = Leads-try_catch body handler kept handled

-- Wherever `Inv` holds, the method throws, and `Inv` still holds then.
pub record Throws {ℓ} {S A : Type ℓ} (Inv : S → Type ℓ) (body : Exec S A) : Type ℓ where
  pub thrown : (w : S) → Inv w → ((e : Message) × ((body w).0 ≡ err e)) × Inv (body w).1

module _ {ℓ} {S A B : Type ℓ} {Inv : S → Type ℓ} where
  then_thrown :
      (rest : A → Exec S B) (given : Result A) (w : S)
      → ((x : A) → Throws Inv (rest x))
      → Inv w
      → ((e : Message) × ((continue rest given w).0 ≡ err e)) × Inv (continue rest given w).1
  then_thrown rest (ok x) w throws q = (throws x).thrown w q
  then_thrown rest (err e) w throws q = ((e, refl), q)

  pub Throws-later :
      (first : Exec S A) (rest : A → Exec S B)
      → Keeps Inv first
      → ((x : A) → Throws Inv (rest x))
      → Throws Inv (first >>= rest)
  unfolding ◌>>=◌
  Throws-later first rest kept throws = record {
    thrown = λ w q. then_thrown rest (first w).0 (first w).1 throws (kept.holds w q);
  }

  pub Throws-now :
      (first : Exec S A) (rest : A → Exec S B) → Throws Inv first → Throws Inv (first >>= rest)
  unfolding ◌>>=◌
  Throws-now first rest throws = record {
    thrown = λ w q. let ((e, at), kept) = throws.thrown w q in ((e, rw at), rw at kept);
  }

pub ruleset keeping =
    (Keeps-bind, Keeps-pure, Keeps-if, Keeps-throw, Keeps-try_catch, Keeps-try_finally)
