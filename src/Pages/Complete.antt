-- ===== src/Pages/Complete.antt =====
-- The pages of a listing together.
use hyperscale_job_scheduler.Base.{
  ℕ, zero, suc, ◌+◌, ◌*◌, ◌/◌, ◌≤◌, ◌<◌, Bool, some, List, [], ◌∷◌, ◌++◌, length, take, drop,
  filter, ◌≡◌, refl, sym, ap, ◌∙◌, inl, inr, arith, Bool-cases, take_enough, take_next, drop-drop,
}
use hyperscale_job_scheduler.Exec.{Exec, ok, pure, ◌>>=◌, Result-cases}
use hyperscale_job_scheduler.Services.Documents.{Documents, ℤ, place, sorted, HasNoTies}
use hyperscale_job_scheduler.Pages.{PaginatedResult, paginated, pages_of, skip_of}
use native.Mathlib.Nat.{lt-div-mul-add}
use native.Mathlib.Numerals.{unary_clauses}

-- Enough pages for every entry.
pages_enough : (total limit n : ℕ) → pages_of total (suc limit) ≡ some n → total ≤ n * suc limit
unfolding pages_of
pages_enough zero limit n h = omega arith
pages_enough (suc total) limit n h =
    let room : suc total + limit < (suc total + limit) / suc limit * suc limit + suc limit =
      lt-div-mul-add (omega arith) in
    let same : (suc total + limit) / suc limit ≡ n = ground (arith, h) in
    let room' : suc total + limit < n * suc limit + suc limit = rw same at room in
    omega (arith, room')

module _ {D : Type 0} (order : D → D → Bool) where
  length-place : (x : D) (xs : List D) → length (place order x xs) ≡ suc (length xs)
  length-place x [] = refl
  length-place x (y ∷ ys) = elim (Bool-cases (order x y)) [
    | inl e ↦ rw e refl
    | inr e ↦ rw e (ap suc (length-place x ys))
  ]

  length-sorted : (xs : List D) → length (sorted order xs) ≡ length xs
  length-sorted [] = refl
  length-sorted (x ∷ xs) = length-place x (sorted order xs) ∙ ap suc (length-sorted xs)

module _ {D : Type 0} (c : Documents D) where
  open c use {
    Db, documents, find, count_documents, find-result, find-documents, count-result,
    count-documents,
  }

  -- A client that reads this many pages, from the given one on.
  unfoldable pub read_pages : (D → Bool) → (D → D → Bool) → ℕ → ℕ → ℕ → Exec Db (List D)
  unfolding ◌>>=◌
  read_pages f order limit page zero = pure []
  read_pages f order limit page (suc n) = do
    result ← paginated c f order page limit
    rest ← read_pages f order limit (suc page) n
    pure (result.items ++ rest)

  paginated-documents :
      (f : D → Bool) (order : D → D → Bool) (page limit : ℕ) (d : Db)
      → documents (paginated c f order page limit d).1 ≡ documents d
  unfolding paginated
  paginated-documents f order page limit d = ground (
    arith,
    find-documents f order (skip_of page limit) limit d,
    count-documents f (find f order (skip_of page limit) limit d).1,
  )

  paginated-result :
      (f : D → Bool) (order : D → D → Bool) (page limit : ℕ) (d : Db) (r : PaginatedResult D)
      → (paginated c f order (suc page) (suc limit) d).0 ≡ ok r
      → HasNoTies order (filter f (documents d))
      → (r.items
          ≡ take (suc limit) (drop (page * suc limit) (sorted order (filter f (documents d)))))
        × (r.total_pages ≡ pages_of (length (filter f (documents d))) (suc limit))
  unfolding paginated skip_of
  paginated-result f order page limit d r h ties =
      elim (Result-cases (find f order (ℤ.pos (page * suc limit)) (suc limit) d).0) [
        | inl (x, p) ↦ ground (arith, p)
        | inr (xs, p) ↦
            let d' = (find f order (ℤ.pos (page * suc limit)) (suc limit) d).1 in
            elim (Result-cases (count_documents f d').0) [
              | inl (x, q) ↦ ground (arith, p, q)
              | inr (n, q) ↦
                  let e : r ≡ record {
                    items = xs;
                    total_count = n;
                    total_pages = pages_of n (suc limit);
                    page = suc page;
                    limit = suc limit;
                  } =
                    ground (arith, p, q) in
                  let total = count-result f d' n q in
                  let same = find-documents f order (ℤ.pos (page * suc limit)) (suc limit) d in
                  (
                    ap (λ x. x.items) e ∙ find-result f order (page * suc limit) limit d xs p ties,
                    ap (λ x. x.total_pages) e
                        ∙ ap (λ k. pages_of k (suc limit))
                            (total ∙ ap (λ ds. length (filter f ds)) same),
                  )
            ]
      ]

  read_pages-take :
      (f : D → Bool) (order : D → D → Bool) (limit page n : ℕ) (d : Db) (xs : List D)
      → (read_pages f order (suc limit) (suc page) n d).0 ≡ ok xs
      → HasNoTies order (filter f (documents d))
      → xs ≡ take (n * suc limit) (drop (page * suc limit) (sorted order (filter f (documents d))))
  unfolding read_pages
  read_pages-take f order limit page zero d xs h ties =
      let none_read : 0 * suc limit ≡ 0 = omega arith in rw none_read (ground (arith, h))
  read_pages-take f order limit page (suc n) d xs h ties =
      elim (Result-cases (paginated c f order (suc page) (suc limit) d).0) [
        | inl (x, p) ↦ ground (arith, p)
        | inr (r, p) ↦
            let d' = (paginated c f order (suc page) (suc limit) d).1 in
            elim (Result-cases (read_pages f order (suc limit) (suc (suc page)) n d').0) [
              | inl (x, q) ↦ ground (arith, p, q)
              | inr (rest, q) ↦
                  let (items, _) = paginated-result f order page limit d r p ties in
                  let same = paginated-documents f order (suc page) (suc limit) d in
                  let ties' : HasNoTies order (filter f (documents d')) = rw same ties in
                  let later = read_pages-take f order limit (suc page) n d' rest q ties' in
                  let sum : suc n * suc limit ≡ suc limit + n * suc limit =
                    simp unary_clauses (omega arith) in
                  let next : suc page * suc limit ≡ page * suc limit + suc limit =
                    simp unary_clauses (omega arith) in
                  let all : xs ≡ r.items ++ rest = ground (arith, p, q) in
                  let docs = sorted order (filter f (documents d)) in
                  rw
                    (
                      all,
                      items,
                      later,
                      same,
                      sum,
                      next,
                      sym (drop-drop (page * suc limit) (suc limit) docs),
                    )
                    (take_next (suc limit) (n * suc limit) (drop (page * suc limit) docs))
            ]
      ]

  -- The first page tells how many pages there are, and these pages together are the whole listing:
  -- every matching document once, in order. No two of them tie, and nobody writes meanwhile.
  pub read_pages_all :
      (f : D → Bool) (order : D → D → Bool) (limit n : ℕ) (d : Db) (first : PaginatedResult D)
      (xs : List D)
      → HasNoTies order (filter f (documents d))
      → (paginated c f order 1 (suc limit) d).0 ≡ ok first
      → first.total_pages ≡ some n
      → (read_pages f order (suc limit) 1 n d).0 ≡ ok xs
      → xs ≡ sorted order (filter f (documents d))
  read_pages_all f order limit n d first xs ties p total h =
      let (_, pages) = paginated-result f order 0 limit d first p ties in
      let enough : length docs ≤ n * suc limit =
        pages_enough (length docs) limit n (sym pages ∙ total) in
      let at_front : 0 * suc limit ≡ 0 = omega arith in
      let read : xs ≡ take (n * suc limit) (drop (0 * suc limit) (sorted order docs)) =
        read_pages-take f order limit 0 n d xs h ties in
      let read' : xs ≡ take (n * suc limit) (sorted order docs) = rw at_front at read in
      read' ∙ take_enough (n * suc limit) (sorted order docs) (rw (length-sorted order docs) enough)
    where
      docs : List D
      docs = filter f (documents d)
