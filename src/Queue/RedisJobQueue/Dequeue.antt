-- ===== src/Queue/RedisJobQueue/Dequeue.antt =====
-- What a dequeue returns and leaves.
use hyperscale_job_scheduler.Base.{
  ℕ, zero, suc, ◌≤◌, ◌<◌, String, Bool, true, false, none, List, [], ◌∷◌, filter, take, includes,
  length, All, str_eq, ◌≡◌, refl, sym, ap, ◌⊎◌, ◌≢◌, inl, inr, arith, length-take, length-map,
  eq_refl, Bool-cases, str_eq-cases,
}
use hyperscale_job_scheduler.Exec.{ok, Result-cases}
use hyperscale_job_scheduler.Types.{JobType}
use hyperscale_job_scheduler.Queue.SortedSets.{
  SortedSets, Entry, in_range, members_of, without, has,
}
use hyperscale_job_scheduler.Queue.RedisJobQueue.{queue_key, fetch_due, remove_fetched, dequeue}

-- The entries of a set that are due.
abbrev pub due : ℕ → List Entry → List Entry
due now = filter (in_range 0 now)

-- The members that a dequeue of at most `count` takes from a set.
abbrev pub taken : ℕ → ℕ → List Entry → List String
taken now count es = members_of (take count (due now es))

pub length-taken : (now count : ℕ) (es : List Entry) → length (taken now count es) ≤ count
length-taken now count es = omega (
  arith,
  length-map {0, 0} (λ e. e.member) (take count (due now es)),
  length-take {0} count (due now es),
)

filter-All {ℓ} :
    {A : Type ℓ} (p : A → Bool) (xs : List A) → All (λ x. p x ≡ true) xs → filter p xs ≡ xs
filter-All p [] h = refl
filter-All p (x ∷ xs) h = rw h.0 (ap (◌∷◌ x) (filter-All p xs h.1))

-- With room to spare, every due entry is taken.
pub take_all {ℓ} : {A : Type ℓ} (n : ℕ) (xs : List A) → length (take n xs) < n → take n xs ≡ xs
take_all zero xs h = absurd (omega arith)
take_all (suc n) [] h = refl
take_all (suc n) (x ∷ xs) h = ap (◌∷◌ x) (take_all n xs (omega arith))

without-nil : (es : List Entry) → without [] es ≡ es
without-nil [] = refl
without-nil (e ∷ es) = ap (◌∷◌ e) (without-nil es)

pub due-without :
    (now : ℕ) (ids : List String) (es : List Entry)
    → All (λ e. includes ids e.member ≡ true) (due now es)
    → due now (without ids es) ≡ []
due-without now ids [] h = refl
due-without now ids (e ∷ es) h = elim (Bool-cases (in_range 0 now e)) [
  | inl on ↦
      let h' : All (λ x. includes ids x.member ≡ true) (e ∷ due now es) = rw on at h in
      rw (h'.0) (due-without now ids es h'.1)
  | inr off ↦
      let h' : All (λ x. includes ids x.member ≡ true) (due now es) = rw off at h in
      elim (Bool-cases (includes ids e.member)) [
        | inl gone ↦ rw gone (due-without now ids es h')
        | inr kept ↦ rw (kept, off) (due-without now ids es h')
      ]
]

pub includes_later :
    (i : String) (ids : List String) (es : List Entry)
    → All (λ e. includes ids e.member ≡ true) es
    → All (λ e. includes (i ∷ ids) e.member ≡ true) es
includes_later i ids [] h = tt
includes_later i ids (e ∷ es) h = (ground (arith, h.0), includes_later i ids es h.1)

pub includes_self : (es : List Entry) → All (λ e. includes (members_of es) e.member ≡ true) es
includes_self [] = tt
includes_self (e ∷ es) =
    (rw (eq_refl e.member), includes_later e.member (members_of es) es (includes_self es))

-- None of the members that ZREM is given stays in the set.
pub has-without :
    (ids : List String) (i : String) (es : List Entry)
    → includes ids i ≡ true
    → has i (without ids es) ≡ false
has-without ids i [] h = refl
has-without ids i (e ∷ es) h = elim (Bool-cases (includes ids e.member)) [
  | inl gone ↦ rw gone (has-without ids i es h)
  | inr kept ↦ elim (str_eq-cases e.member i) [
    | inl same ↦ cc (ap (includes ids) same)
    | inr (_, other) ↦ rw (kept, other) (has-without ids i es h)
  ]
]

module _ (r : SortedSets) where
  open r use {
    Sets, entries, zrem, zrangebyscore, zrange-result, zrange-entries, zrem-result, zrem-entries,
    zrem-entries_ne,
  }

  fetch-entries :
      (t : JobType) (now count : ℕ) (k : String) (z : Sets)
      → entries (fetch_due r t now count z).1 k ≡ entries z k
  unfolding fetch_due
  fetch-entries t now count k z = ground (arith, zrange-entries (queue_key t) 0 now 0 count k z)

  -- The reply may be missing; then nothing is fetched.
  fetch-result :
      (t : JobType) (now count : ℕ) (z : Sets) (ids : List String)
      → (fetch_due r t now count z).0 ≡ ok ids
      → (ids ≡ taken now count (entries z (queue_key t))) ⊎ (ids ≡ [])
  unfolding fetch_due
  fetch-result t now count z ids e = ground (arith, zrange-result (queue_key t) 0 now 0 count z ids)

  remove-result :
      (t : JobType) (ids got : List String) (z : Sets)
      → (remove_fetched r t ids z).0 ≡ ok got
      → (got ≡ ids)
        × (entries (remove_fetched r t ids z).1 (queue_key t)
            ≡ without ids (entries z (queue_key t)))
  unfolding remove_fetched
  remove-result t [] got z e = (ground arith, sym (without-nil _))
  remove-result t (i ∷ ids) got z e = elim (Result-cases (zrem (queue_key t) (i ∷ ids) z).0) [
    | inl (x, p) ↦ ground (arith, p)
    | inr (n, p) ↦ ground (arith, p, zrem-result (queue_key t) (i ∷ ids) z n p)
  ]

  remove-entries :
      (t : JobType) (ids : List String) (z : Sets)
      → (entries (remove_fetched r t ids z).1 (queue_key t) ≡ entries z (queue_key t))
        ⊎ (entries (remove_fetched r t ids z).1 (queue_key t)
            ≡ without ids (entries z (queue_key t)))
  unfolding remove_fetched
  remove-entries t [] z = inl refl
  remove-entries t (i ∷ ids) z = ground (arith, zrem-entries (queue_key t) (i ∷ ids) z)

  remove-entries_ne :
      (t : JobType) (ids : List String) (k : String) (z : Sets)
      → str_eq (queue_key t) k ≡ false
      → entries (remove_fetched r t ids z).1 k ≡ entries z k
  unfolding remove_fetched
  remove-entries_ne t [] k z h = refl
  remove-entries_ne t (i ∷ ids) k z h =
      ground (arith, zrem-entries_ne (queue_key t) (i ∷ ids) k z h)

  -- A dequeue that returns gives the earliest due members, at most `count` of them, unless the reply
  -- of the first command is missing; and it leaves exactly the other members.
  pub dequeue-result :
      (t : JobType) (now count : ℕ) (z : Sets) (ids : List String)
      → (dequeue r t now count z).0 ≡ ok ids
      → ((ids ≡ taken now count (entries z (queue_key t))) ⊎ (ids ≡ []))
        × (entries (dequeue r t now count z).1 (queue_key t)
            ≡ without ids (entries z (queue_key t)))
  unfolding dequeue
  dequeue-result t now count z ids e = elim (Result-cases (fetch_due r t now count z).0) [
    | inl (x, p) ↦ ground (arith, p)
    | inr (got, p) ↦ ground (
      arith,
      p,
      fetch-entries t now count (queue_key t) z,
      fetch-result t now count z got p,
      remove-result t got ids (fetch_due r t now count z).1,
    )
  ]

  pub dequeue-entries :
      (t : JobType) (now count : ℕ) (z : Sets)
      → (entries (dequeue r t now count z).1 (queue_key t) ≡ entries z (queue_key t))
        ⊎ ((ids : List String) × (entries (dequeue r t now count z).1 (queue_key t)
              ≡ without ids (entries z (queue_key t))))
  unfolding dequeue
  dequeue-entries t now count z = elim (Result-cases (fetch_due r t now count z).0) [
    | inl (x, p) ↦ inl (ground (arith, p, fetch-entries t now count (queue_key t) z))
    | inr (got, p) ↦
        let same = fetch-entries t now count (queue_key t) z in
        elim (remove-entries t got (fetch_due r t now count z).1) [
          | inl lost ↦ inl (ground (arith, p, same, lost))
          | inr done ↦ inr (got, ground (arith, p, same, done))
        ]
  ]

  -- The other queues are left alone.
  pub dequeue-entries_ne :
      (t : JobType) (now count : ℕ) (k : String) (z : Sets)
      → str_eq (queue_key t) k ≡ false
      → entries (dequeue r t now count z).1 k ≡ entries z k
  unfolding dequeue
  dequeue-entries_ne t now count k z h = elim (Result-cases (fetch_due r t now count z).0) [
    | inl (x, p) ↦ ground (arith, p, fetch-entries t now count k z)
    | inr (got, p) ↦ ground (
      arith,
      p,
      fetch-entries t now count k z,
      remove-entries_ne t got k (fetch_due r t now count z).1,
    )
  ]

  -- As `dequeue-result`, with the missing reply.
  fetch_given :
      (t : JobType) (now count : ℕ) (z : Sets) (ids : List String)
      → (fetch_due r t now count z).0 ≡ ok ids
      → (ids ≡ taken now count (entries z (queue_key t)))
        ⊎ ((ids ≡ []) × ((zrangebyscore (queue_key t) 0 now 0 count z).0 ≡ ok none))
  unfolding fetch_due
  fetch_given t now count z ids e = ground (arith, zrange-result (queue_key t) 0 now 0 count z ids)

  pub dequeue_given :
      (t : JobType) (now count : ℕ) (z : Sets) (ids : List String)
      → (dequeue r t now count z).0 ≡ ok ids
      → (ids ≡ taken now count (entries z (queue_key t)))
        ⊎ ((ids ≡ []) × ((zrangebyscore (queue_key t) 0 now 0 count z).0 ≡ ok none))
  unfolding dequeue
  dequeue_given t now count z ids e = elim (Result-cases (fetch_due r t now count z).0) [
    | inl (x, p) ↦ ground (arith, p)
    | inr (got, p) ↦ ground (
      arith,
      p,
      fetch_given t now count z got p,
      remove-result t got ids (fetch_due r t now count z).1,
    )
  ]

  module _
      (replies : (k : String) (lo hi offset count : ℕ) (z : Sets)
        → (zrangebyscore k lo hi offset count z).0 ≢ ok none) where
    fetch_replied :
        (t : JobType) (now count : ℕ) (z : Sets) (ids : List String)
        → (fetch_due r t now count z).0 ≡ ok ids
        → ids ≡ taken now count (entries z (queue_key t))
    unfolding fetch_due
    fetch_replied t now count z ids e = ground (
      arith,
      zrange-result (queue_key t) 0 now 0 count z ids,
      replies (queue_key t) 0 now 0 count z,
    )

    pub dequeue_replied :
        (t : JobType) (now count : ℕ) (z : Sets) (ids : List String)
        → (dequeue r t now count z).0 ≡ ok ids
        → ids ≡ taken now count (entries z (queue_key t))
    unfolding dequeue
    dequeue_replied t now count z ids e = elim (Result-cases (fetch_due r t now count z).0) [
      | inl (x, p) ↦ ground (arith, p)
      | inr (got, p) ↦ ground (
        arith,
        p,
        fetch_replied t now count z got p,
        remove-result t got ids (fetch_due r t now count z).1,
      )
    ]
