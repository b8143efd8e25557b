-- ===== src/Base/Prefixes.antt =====
-- Further lemmas on lists: what a prefix, a suffix and a test see of lists put together.
use Prim.Native.Nat.{ℕ, zero, suc, ◌+◌, ◌-◌, ◌≤◌}
use mathlib.Core.Path.{◌≡◌, refl, ap}
use mathlib.Core.Logic.{◌≢◌, inl, inr}
use mathlib.Core.Bool.{Bool, true, false}
use mathlib.Core.List.{List, [], ◌∷◌, ◌++◌, map}
use native.Mathlib.Omega.{arith}
use hyperscale_job_scheduler.Base.Tests.{Bool-cases}
use hyperscale_job_scheduler.Base.Lists.{length, take, drop, filter, All}

pub append_assoc {ℓ} : {A : Type ℓ} (xs ys zs : List A) → (xs ++ ys) ++ zs ≡ xs ++ (ys ++ zs)
append_assoc [] ys zs = refl
append_assoc (x ∷ xs) ys zs = ap (◌∷◌ x) (append_assoc xs ys zs)

pub append_nil {ℓ} : {A : Type ℓ} (xs : List A) → xs ++ [] ≡ xs
append_nil [] = refl
append_nil (x ∷ xs) = ap (◌∷◌ x) (append_nil xs)

pub take-append {ℓ} :
    {A : Type ℓ} (n : ℕ) (xs ys : List A) → take n (xs ++ ys) ≡ take n xs ++ take (n - length xs) ys
take-append zero xs ys = let none_more : 0 - length xs ≡ 0 = omega arith in rw none_more refl
take-append (suc n) [] ys = let all_left : suc n - 0 ≡ suc n = omega arith in rw all_left refl
take-append (suc n) (x ∷ xs) ys =
    let fewer : suc n - suc (length xs) ≡ n - length xs = omega arith in
    rw fewer (ap (◌∷◌ x) (take-append n xs ys))

pub map-take {ℓ κ} :
    {A : Type ℓ} {B : Type κ} (f : A → B) (n : ℕ) (xs : List A)
    → map f (take n xs) ≡ take n (map f xs)
map-take f zero xs = refl
map-take f (suc n) [] = refl
map-take f (suc n) (x ∷ xs) = ap (◌∷◌ (f x)) (map-take f n xs)

pub take_enough {ℓ} : {A : Type ℓ} (n : ℕ) (xs : List A) → length xs ≤ n → take n xs ≡ xs
take_enough zero [] h = refl
take_enough zero (x ∷ xs) h = absurd (omega arith)
take_enough (suc n) [] h = refl
take_enough (suc n) (x ∷ xs) h = ap (◌∷◌ x) (take_enough n xs (omega arith))

-- A page and the pages behind it.
pub take_next {ℓ} :
    {A : Type ℓ} (size more : ℕ) (xs : List A)
    → take size xs ++ take more (drop size xs) ≡ take (size + more) xs
take_next zero more xs = let e : 0 + more ≡ more = omega arith in rw e refl
take_next (suc size) zero [] = let e : suc size + 0 ≡ suc size = omega arith in rw e refl
take_next (suc size) (suc more) [] =
    let e : suc size + suc more ≡ suc (size + suc more) = omega arith in rw e refl
take_next (suc size) more (x ∷ xs) =
    let e : suc size + more ≡ suc (size + more) = omega arith in
    rw e (ap (◌∷◌ x) (take_next size more xs))

pub drop-drop {ℓ} : {A : Type ℓ} (n m : ℕ) (xs : List A) → drop m (drop n xs) ≡ drop (n + m) xs
drop-drop zero m xs = let e : 0 + m ≡ m = omega arith in rw e refl
drop-drop (suc n) zero [] = let e : suc n + 0 ≡ suc n = omega arith in rw e refl
drop-drop (suc n) (suc m) [] = let e : suc n + suc m ≡ suc (n + suc m) = omega arith in rw e refl
drop-drop (suc n) m (x ∷ xs) =
    let e : suc n + m ≡ suc (n + m) = omega arith in rw e (drop-drop n m xs)

pub filter_replace {ℓ} :
    {A : Type ℓ} (f : A → Bool) (before after : List A) (x y : A)
    → f x ≡ true
    → f y ≡ false
    → length (filter f (before ++ (x ∷ after))) ≡ suc (length (filter f (before ++ (y ∷ after))))
filter_replace f [] after x y on off = rw (on, off) refl
filter_replace f (z ∷ before) after x y on off = elim (Bool-cases (f z)) [
  | inl e ↦ rw e (ap suc (filter_replace f before after x y on off))
  | inr e ↦ rw e (filter_replace f before after x y on off)
]

pub length_replace {ℓ} :
    {A : Type ℓ} (before after : List A) (x y : A)
    → length (before ++ (y ∷ after)) ≡ length (before ++ (x ∷ after))
length_replace [] after x y = refl
length_replace (z ∷ before) after x y = ap suc (length_replace before after x y)

pub filter_ne {ℓ} :
    {A : Type ℓ} (f : A → Bool) (before after : List A) (x : A)
    → f x ≡ true
    → filter f (before ++ (x ∷ after)) ≢ []
filter_ne f [] after x on none_left = ground (arith, on, none_left)
filter_ne f (z ∷ before) after x on none_left = elim (Bool-cases (f z)) [
  | inl e ↦ ground (arith, e, none_left)
  | inr e ↦
      let h : filter f (before ++ (x ∷ after)) ≡ [] = rw e at none_left in
      filter_ne f before after x on h
]

pub All_middle {ℓ κ} :
    {A : Type ℓ} (P : A → Type κ) (before after : List A) (x : A)
    → All P (before ++ (x ∷ after))
    → P x
All_middle P [] after x h = h.0
All_middle P (y ∷ before) after x h = All_middle P before after x h.1
