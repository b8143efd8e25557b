-- ===== src/Services/Documents.antt =====
-- A collection of the database, as the read paths and the dead letters of the repository query it. The
-- driver is not code of the repository: its calls are parameters, and the laws state what they are
-- documented to do. A filter object is a test of a document, a sort object is an order of documents.
use hyperscale_job_scheduler.Base.{
  ℕ, suc, Bool, true, false, ◌&&◌, Option, none, some, List, [], ◌∷◌, ◌++◌, length, take, drop,
  filter, All, if◌then◌else◌, ◌≡◌, refl, ◌⊎◌, inl, inr,
}
use hyperscale_job_scheduler.Exec.{Exec, ok}

-- Whole numbers: a number of documents to skip may come out negative, and is then refused.
pub data ℤ : Type 0 where
  pos negsuc : ℕ → ℤ

module _ {D : Type 0} where
  abbrev pub place : (D → D → Bool) → D → List D → List D
  place before x [] = x ∷ []
  place before x (y ∷ ys) = if before x y then x ∷ y ∷ ys else y ∷ place before x ys

  -- The documents in this order.
  abbrev pub sorted : (D → D → Bool) → List D → List D
  sorted before [] = []
  sorted before (x ∷ xs) = place before x (sorted before xs)

  -- No two of the documents may change places in the order.
  abbrev pub HasNoTies : (D → D → Bool) → List D → Type 0
  HasNoTies before [] = Unit {0}
  HasNoTies before (x ∷ xs) = All (λ y. before x y && before y x ≡ false) xs × HasNoTies before xs

  -- The document that a call with a filter picks, and those around it.
  pub data Picked (f : D → Bool) (xs : List D) : Option D → Type 0 where
    nothing : filter f xs ≡ [] → Picked f xs none
    one :
        (before after : List D) (x : D)
        → xs ≡ before ++ (x ∷ after)
        → f x ≡ true
        → Picked f xs (some x)

  -- What is returned and left when the picked document is changed.
  pub data Changed (f : D → Bool) (u : D → D) (xs ys : List D) : Option D → Type 0 where
    nothing : filter f xs ≡ [] → ys ≡ xs → Changed f u xs ys none
    one :
        (before after : List D) (x : D)
        → xs ≡ before ++ (x ∷ after)
        → f x ≡ true
        → ys ≡ before ++ (u x ∷ after)
        → Changed f u xs ys (some (u x))

pub record Change {D : Type 0} (f : D → Bool) (u : D → D) (xs ys : List D) (o : Option D)
    : Type 0 where
  pub before : List D
  pub after : List D
  pub picked : D
  pub stood : xs ≡ before ++ (picked ∷ after)
  pub fits : f picked ≡ true
  pub stands : ys ≡ before ++ (u picked ∷ after)
  pub returned : o ≡ some (u picked)

pub Changed-cases :
    {D : Type 0} {f : D → Bool} {u : D → D} {xs ys : List D} {o : Option D}
    → Changed f u xs ys o
    → ((filter f xs ≡ []) × ((ys ≡ xs) × (o ≡ none))) ⊎ Change f u xs ys o
Changed-cases (nothing e same) = inl (e, (same, refl))
Changed-cases (one before after x e fits e') = inr (record {
  before = before;
  after = after;
  picked = x;
  stood = e;
  fits = fits;
  stands = e';
  returned = refl;
})

pub record Documents (D : Type 0) : Type 1 where
  pub Db : Type 0
  pub documents : Db → List D
  -- find(filter).sort(order).skip(n).limit(m)
  pub find : (D → Bool) → (D → D → Bool) → ℤ → ℕ → Exec Db (List D)
  pub find_one : (D → Bool) → Exec Db (Option D)
  pub count_documents : (D → Bool) → Exec Db ℕ
  -- findOneAndUpdate with `new: true`
  pub find_one_and_update : (D → Bool) → (D → D) → Exec Db (Option D)
  pub delete_one : (D → Bool) → Exec Db (Unit {0})
  -- Documents that tie in the order may come in any order; without ties there is one. A limit of 0
  -- is no limit, and no law speaks of it.
  pub find-result :
      (f : D → Bool) (before : D → D → Bool) (skip limit : ℕ) (d : Db) (xs : List D)
      → (find f before (pos skip) (suc limit) d).0 ≡ ok xs
      → HasNoTies before (filter f (documents d))
      → xs ≡ take (suc limit) (drop skip (sorted before (filter f (documents d))))
  pub find-matches :
      (f : D → Bool) (before : D → D → Bool) (skip : ℤ) (limit : ℕ) (d : Db) (xs : List D)
      → (find f before skip limit d).0 ≡ ok xs
      → All (λ x. f x ≡ true) xs
  pub find-documents :
      (f : D → Bool) (before : D → D → Bool) (skip : ℤ) (limit : ℕ) (d : Db)
      → documents (find f before skip limit d).1 ≡ documents d
  pub find_one-result :
      (f : D → Bool) (d : Db) (o : Option D) → (find_one f d).0 ≡ ok o → Picked f (documents d) o
  pub find_one-documents : (f : D → Bool) (d : Db) → documents (find_one f d).1 ≡ documents d
  pub count-result :
      (f : D → Bool) (d : Db) (n : ℕ)
      → (count_documents f d).0 ≡ ok n
      → n ≡ length (filter f (documents d))
  pub count-documents : (f : D → Bool) (d : Db) → documents (count_documents f d).1 ≡ documents d
  pub update-result :
      (f : D → Bool) (u : D → D) (d : Db) (o : Option D)
      → (find_one_and_update f u d).0 ≡ ok o
      → Changed f u (documents d) (documents (find_one_and_update f u d).1) o
