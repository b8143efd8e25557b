-- ===== src/Examples/MemoryDocuments.antt =====
-- A collection in memory: the list of its documents.
use hyperscale_job_scheduler.Base.{
  ℕ, zero, suc, Bool, true, false, Option, none, some, List, [], ◌∷◌, length, take, drop, filter,
  All, if◌then◌else◌, ◌≡◌, refl, ap, inl, inr, arith, Bool-cases,
}
use hyperscale_job_scheduler.Exec.{Result, ok, err, ok-eq}
use hyperscale_job_scheduler.Services.Documents.{
  Documents, ℤ, pos, negsuc, place, sorted, Picked, Changed,
}

module _ {D : Type 0} where
  abbrev page : ℤ → ℕ → List D → Result (List D)
  page (negsuc n) limit xs = err []
  page (pos n) zero xs = ok (drop n xs)
  page (pos n) (suc limit) xs = ok (take (suc limit) (drop n xs))

  abbrev first : (D → Bool) → List D → Option D
  first f [] = none
  first f (x ∷ xs) = if f x then some x else first f xs

  abbrev pub changed_first : (D → Bool) → (D → D) → List D → Option D × List D
  changed_first f u [] = (none, [])
  changed_first f u (x ∷ xs) =
      let (o, ys) = changed_first f u xs in if f x then (some (u x), u x ∷ xs) else (o, x ∷ ys)

  abbrev without_first : (D → Bool) → List D → List D
  without_first f [] = []
  without_first f (x ∷ xs) = if f x then xs else x ∷ without_first f xs

module _ {D : Type 0} (P : D → Type 0) where
  All-take : (n : ℕ) (xs : List D) → All P xs → All P (take n xs)
  All-take zero xs h = tt
  All-take (suc n) [] h = tt
  All-take (suc n) (x ∷ xs) h = (h.0, All-take n xs h.1)

  All-drop : (n : ℕ) (xs : List D) → All P xs → All P (drop n xs)
  All-drop zero xs h = h
  All-drop (suc n) [] h = tt
  All-drop (suc n) (x ∷ xs) h = All-drop n xs h.1

  All-place : (o : D → D → Bool) (x : D) (xs : List D) → P x → All P xs → All P (place o x xs)
  All-place o x [] p h = (p, tt)
  All-place o x (y ∷ ys) p h = elim (Bool-cases (o x y)) [
    | inl e ↦ rw e (p, h)
    | inr e ↦ rw e (h.0, All-place o x ys p h.1)
  ]

  All-sorted : (o : D → D → Bool) (xs : List D) → All P xs → All P (sorted o xs)
  All-sorted o [] h = tt
  All-sorted o (x ∷ xs) h = All-place o x (sorted o xs) h.0 (All-sorted o xs h.1)

module _ {D : Type 0} (f : D → Bool) where
  All-filter : (xs : List D) → All (λ x. f x ≡ true) (filter f xs)
  All-filter [] = tt
  All-filter (x ∷ xs) = elim (Bool-cases (f x)) [
    | inl e ↦ rw e (e, All-filter xs)
    | inr e ↦ rw e (All-filter xs)
  ]

  pub All-page :
      (o : D → D → Bool) (skip : ℤ) (limit : ℕ) (ds xs : List D)
      → page skip limit (sorted o (filter f ds)) ≡ ok xs
      → All (λ x. f x ≡ true) xs
  All-page o (negsuc n) limit ds xs h = absurd (ground (arith, h))
  All-page o (pos n) zero ds xs h =
      rw (ok-eq _ xs h) (All-drop _ n _ (All-sorted _ o _ (All-filter ds)))
  All-page o (pos n) (suc limit) ds xs h =
      rw (ok-eq _ xs h)
        (All-take _ (suc limit) _ (All-drop _ n _ (All-sorted _ o _ (All-filter ds))))

  pub first-Picked : (xs : List D) → Picked f xs (first f xs)
  first-Picked [] = Picked.nothing refl
  first-Picked (x ∷ xs) = elim (Bool-cases (f x)) [
    | inl e ↦ rw e (Picked.one [] xs x refl e)
    | inr e ↦ rw e (later e (first-Picked xs))
  ]
    where
      later : {o : Option D} → f x ≡ false → Picked f xs o → Picked f (x ∷ xs) o
      later e (Picked.nothing h) = Picked.nothing (rw e h)
      later e (Picked.one before after y h fits) =
          Picked.one (x ∷ before) after y (ap (◌∷◌ x) h) fits

  pub changed_first-Changed :
      (u : D → D) (xs : List D) → Changed f u xs (changed_first f u xs).1 (changed_first f u xs).0
  changed_first-Changed u [] = Changed.nothing refl refl
  changed_first-Changed u (x ∷ xs) = elim (Bool-cases (f x)) [
    | inl e ↦ rw e (Changed.one [] xs x refl e refl)
    | inr e ↦ rw e (later e (changed_first-Changed u xs))
  ]
    where
      later :
          {ys : List D} {o : Option D}
          → f x ≡ false
          → Changed f u xs ys o
          → Changed f u (x ∷ xs) (x ∷ ys) o
      later e (Changed.nothing h same) = Changed.nothing (rw e h) (ap (◌∷◌ x) same)
      later e (Changed.one before after y h fits h') =
          Changed.one (x ∷ before) after y (ap (◌∷◌ x) h) fits (ap (◌∷◌ x) h')

abbrev pub memory_documents : (D : Type 0) → Documents D
memory_documents D = record {
  Db = List D;
  documents = λ ds. ds;
  find = λ f o skip limit ds. (page skip limit (sorted o (filter f ds)), ds);
  find_one = λ f ds. (ok (first f ds), ds);
  count_documents = λ f ds. (ok (length (filter f ds)), ds);
  find_one_and_update = λ f u ds. (ok (changed_first f u ds).0, (changed_first f u ds).1);
  delete_one = λ f ds. (ok tt, without_first f ds);
  find-result = λ f o skip limit ds xs h ties. ok-eq _ xs h;
  find-matches = λ f o skip limit ds xs h. All-page f o skip limit ds xs h;
  find-documents = λ f o skip limit ds. refl;
  find_one-result = λ f ds o h. rw (ok-eq _ o h) (first-Picked f ds);
  find_one-documents = λ f ds. refl;
  count-result = λ f ds n h. ok-eq _ n h;
  count-documents = λ f ds. refl;
  update-result = λ f u ds o h. rw (ok-eq _ o h) (changed_first-Changed f u ds);
}
