-- ===== src/DeadLetters/Resolution.antt =====
-- A dead letter is resolved once, and leaves the list of the unresolved ones.
use hyperscale_job_scheduler.Base.{
  ℕ, suc, String, true, false, Option, none, some, List, [], ◌∷◌, ◌++◌, length, filter, take, All,
  str_eq, ◌≡◌, refl, sym, ◌∙◌, ◌⊎◌, inl, inr, arith, str_eq-cases, eq_refl, eq_iff, filter_replace,
  length_replace, filter_ne, All_middle,
}
use hyperscale_job_scheduler.Exec.{Message, ok}
use hyperscale_job_scheduler.Services.Letters.{DeadLetter}
use hyperscale_job_scheduler.Services.Documents.{Documents, Changed-cases}
use hyperscale_job_scheduler.DeadLetters.Queries.{
  resolve_filter, resolve_update, letter_filter, resolve,
}

-- The unique index on `jobId`.
abbrev pub HasUniqueIds : List DeadLetter → Type 0
HasUniqueIds [] = Unit {0}
HasUniqueIds (x ∷ xs) = All (λ y. str_eq x.job_id y.job_id ≡ false) xs × HasUniqueIds xs

-- The letters that the unfiltered list of unresolved letters shows.
abbrev pub unresolved : List DeadLetter → List DeadLetter
unresolved = filter (letter_filter none none)

str_eq_other : (a b c : String) → a ≡ c → str_eq a b ≡ false → str_eq b c ≡ false
str_eq_other a b c p h = elim (str_eq-cases b c) [
  | inl q ↦
      let same : str_eq a b ≡ true = rw (p ∙ sym q) (eq_refl b) in absurd (ground (arith, h, same))
  | inr (_, e) ↦ e
]

filter_others :
    (job_id : String) (x : DeadLetter) (ys : List DeadLetter)
    → x.job_id ≡ job_id
    → All (λ y. str_eq x.job_id y.job_id ≡ false) ys
    → filter (resolve_filter job_id) ys ≡ []
unfolding resolve_filter
filter_others job_id x [] e h = refl
filter_others job_id x (y ∷ ys) e h =
    rw (str_eq_other x.job_id y.job_id job_id e h.0) (filter_others job_id x ys e h.1)

resolve_filter_other :
    (k : String) (d : DeadLetter) → str_eq d.job_id k ≡ false → resolve_filter k d ≡ false
unfolding resolve_filter
resolve_filter_other k d h = rw h refl

-- Without the letter that was picked, no other can be.
filter_resolved :
    (job_id : String) (before after : List DeadLetter) (x y : DeadLetter)
    → HasUniqueIds (before ++ (x ∷ after))
    → x.job_id ≡ job_id
    → resolve_filter job_id y ≡ false
    → filter (resolve_filter job_id) (before ++ (y ∷ after)) ≡ []
filter_resolved job_id [] after x y u e off = rw off (filter_others job_id x after e u.0)
filter_resolved job_id (z ∷ before) after x y u e off =
    let apart : str_eq z.job_id job_id ≡ false =
      rw e at (All_middle (λ y. str_eq z.job_id y.job_id ≡ false) before after x u.0) in
    rw (resolve_filter_other job_id z apart) (filter_resolved job_id before after x y u.1 e off)

picked_id :
    (job_id : String) (x : DeadLetter)
    → resolve_filter job_id x ≡ true
    → (x.job_id ≡ job_id) × (x.resolved_at ≡ none)
unfolding resolve_filter
picked_id job_id x h = ((eq_iff x.job_id job_id).0 (ground arith), ground arith)

settled :
    (job_id by : String) (text : Message) (now : ℕ) (x : DeadLetter)
    → (resolve_filter job_id (resolve_update now by text x) ≡ false)
      × (letter_filter none none (resolve_update now by text x) ≡ false)
unfolding resolve_filter resolve_update letter_filter
settled job_id by text now x = (ground arith, ground arith)

open_letter : (x : DeadLetter) → x.resolved_at ≡ none → letter_filter none none x ≡ true
unfolding letter_filter
open_letter x h = rw h refl

module _ (c : Documents DeadLetter) where
  open c use {Db, documents, update-result}

  -- A letter that was resolved is not resolved again, by whoever, with whatever text: a second call
  -- that returns finds nothing. No two letters have the same job.
  pub resolve_once :
      (job_id by by' : String) (text text' : Message) (now now' : ℕ) (d : Db) (x : DeadLetter)
      (again : Option DeadLetter)
      → HasUniqueIds (documents d)
      → (resolve c job_id by text now d).0 ≡ ok (some x)
      → (resolve c job_id by' text' now' (resolve c job_id by text now d).1).0 ≡ ok again
      → again ≡ none
  unfolding resolve
  resolve_once job_id by by' text text' now now' d x again u h h' =
      elim (Changed-cases (update-result _ _ d (some x) h)) [
        | inl (_, (_, e)) ↦ absurd (cc e)
        | inr w ↦
            let (same_id, _) = picked_id job_id w.picked w.fits in
            let u' : HasUniqueIds (w.before ++ (w.picked ∷ w.after)) = rw w.stood at u in
            let none_left : filter (resolve_filter job_id) (documents d') ≡ [] = rw w.stands (
              filter_resolved job_id w.before w.after w.picked _ u' same_id
                (settled job_id by text now w.picked).0) in
            elim (Changed-cases (update-result _ _ d' again h')) [
              | inl (_, (_, e)) ↦ e
              | inr v ↦
                  let left : filter (resolve_filter job_id) (v.before ++ (v.picked ∷ v.after))
                      ≡ [] =
                    rw v.stood at none_left in
                  absurd (filter_ne (resolve_filter job_id) v.before v.after v.picked v.fits left)
            ]
      ]
    where
      d' : Db
      d' = (resolve c job_id by text now d).1

  -- A call that returns either finds no unresolved letter of the job and changes nothing, or stamps
  -- one with the time, the person and the first 1000 units of the text; then one letter fewer is
  -- listed as unresolved, and no letter is lost.
  pub resolve_lem :
      (job_id by : String) (text : Message) (now : ℕ) (d : Db) (o : Option DeadLetter)
      → (resolve c job_id by text now d).0 ≡ ok o
      → let ds' = documents (resolve c job_id by text now d).1 in
        ((o ≡ none) × ((ds' ≡ documents d) × (filter (resolve_filter job_id) (documents d) ≡ [])))
        ⊎ ((x : DeadLetter) × ((o ≡ some x)
              × ((x.job_id ≡ job_id)
                  × ((x.resolved_at ≡ some now)
                      × ((x.resolved_by ≡ some by)
                          × ((x.resolution ≡ some (take 1000 text))
                              × ((length (unresolved (documents d)) ≡ suc (length (unresolved ds')))
                                  × (length ds' ≡ length (documents d)))))))))
  unfolding resolve resolve_update
  resolve_lem job_id by text now d o h = elim (Changed-cases (update-result _ _ d o h)) [
    | inl (missing, (same, e)) ↦ inl (e, (same, missing))
    | inr w ↦
        let (same_id, was_open) = picked_id job_id w.picked w.fits in
        let (_, listed) = settled job_id by text now w.picked in
        inr (
          resolve_update now by text w.picked,
          (
            w.returned,
            (
              same_id,
              (
                refl,
                (
                  refl,
                  (
                    refl,
                    (
                      rw (w.stood, w.stands)
                          (filter_replace (letter_filter none none) w.before w.after w.picked _
                            (open_letter w.picked was_open) listed),
                      rw (w.stood, w.stands) (length_replace w.before w.after w.picked _),
                    ),
                  ),
                ),
              ),
            ),
          ),
        )
  ]
