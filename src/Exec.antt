-- ===== src/Exec.antt =====
-- Asynchronous methods that act on external state and may throw: an `await`ed call either returns
-- or throws an error with a message, and the state that it left is kept in both cases.
pub mod Keeps
pub mod Achieves
use hyperscale_job_scheduler.Base.{ℕ, List, Option, some, ◌≡◌, refl, ◌⊎◌, inl, inr, arith}

-- An error message, as its UTF-16 code units.
abbrev pub Message : Type 0
Message = List ℕ

pub data Result {ℓ} (A : Type ℓ) : Type ℓ where
  ok : A → Result A
  err : Message → Result A

abbrev pub Exec {ℓ} : Type ℓ → Type ℓ → Type ℓ
Exec S A = S → Result A × S

-- What the result of a `finally` block leaves of an earlier result: its own error wins.
abbrev pub after_finally {ℓ κ} : {A : Type ℓ} {B : Type κ} → Result A → Result B → Result A
after_finally r (ok b) = r
after_finally r (err e) = err e

module _ {ℓ} {S A : Type ℓ} where
  unfoldable pub pure : A → Exec S A
  pure a s = (ok a, s)

  unfoldable pub throw : Message → Exec S A
  throw e s = (err e, s)

  abbrev pub recover : (Message → Exec S A) → Result A → Exec S A
  recover h (ok a) s = (ok a, s)
  recover h (err e) s = h e s

  -- try { m } catch (e) { h(e) }: the handler starts in the state in which `m` threw.
  unfoldable pub try_catch : Exec S A → (Message → Exec S A) → Exec S A
  unfolding pure throw
  try_catch m h s = let (r, s') = m s in recover h r s'

module _ {ℓ} {S A : Type ℓ} where
  -- try { m } finally { n }
  unfoldable pub try_finally : {B : Type ℓ} → Exec S A → Exec S B → Exec S A
  try_finally m n s = let (r, s') = m s in let (q, s'') = n s' in (after_finally r q, s'')

module _ {ℓ} {S A B : Type ℓ} where
  abbrev pub continue : (A → Exec S B) → Result A → Exec S B
  continue f (ok a) s = f a s
  continue f (err e) s = (err e, s)

  infixl 10 ◌>>=◌ ◌>>◌
  -- Opening this opens `pure` and `throw` too.
  unfoldable pub ◌>>=◌ : Exec S A → (A → Exec S B) → Exec S B
  unfolding pure throw
  ◌>>=◌ m f s = let (r, s') = m s in continue f r s'

  abbrev pub ◌>>◌ : Exec S A → Exec S B → Exec S B
  m >> n = m >>= λ _. n

-- To split on what a call gave and keep the equation.
pub Result-cases {ℓ} :
    {A : Type ℓ} (r : Result A) → ((e : Message) × (r ≡ err e)) ⊎ ((a : A) × (r ≡ ok a))
Result-cases (err e) = inl (e, refl)
Result-cases (ok a) = inr (a, refl)

pub ok-eq {ℓ} : {A : Type ℓ} (a b : A) → ok a ≡ ok b → b ≡ a
ok-eq a b e = ground arith

pub ok_some-eq {ℓ} : {A : Type ℓ} (a b : A) → ok (some a) ≡ ok (some b) → b ≡ a
ok_some-eq a b e = ground arith
