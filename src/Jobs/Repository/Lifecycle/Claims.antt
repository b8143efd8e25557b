-- ===== src/Jobs/Repository/Lifecycle/Claims.antt =====
-- What the status diagram gives for claims: src/domains/job/job.repository.ts, claimJob, against
-- any history of other calls.
use hyperscale_job_scheduler.Base.{
  ℕ, ◌+◌, ◌≤◌, String, Option, none, some, List, [], ◌∷◌, ◌≡◌, refl, ◌∙◌, ◌⊎◌, inl, inr, arith,
}
use hyperscale_job_scheduler.Exec.{ok}
use hyperscale_job_scheduler.Types.{Job, completed, failed, dead}
use hyperscale_job_scheduler.Jobs.Update.{JobUpdate, pre_find_one_and_update, written, returned}
use hyperscale_job_scheduler.Jobs.Collection.{JobCollection}
use hyperscale_job_scheduler.Jobs.Repository.{claim_job, claim_filter, claim_update}
use hyperscale_job_scheduler.Jobs.Repository.Lifecycle.{
  Move, stays, claims, completes, fails, dies, cancels, restarts, Transition, Write, perform,
  perform_all,
}
use hyperscale_job_scheduler.Jobs.Repository.Lifecycle.Transitions.{perform-Transition}

-- The document is there, at this version or a later one.
abbrev pub Reached : ℕ → Option Job → Type 0
Reached v none = ⊥
Reached v (some j) = v ≤ j.version

-- The document is there, and its attempt or its life is over.
abbrev pub IsSettled : Option Job → Type 0
IsSettled none = ⊥
IsSettled (some j) = (j.status ≡ completed) ⊎ ((j.status ≡ failed) ⊎ (j.status ≡ dead))

-- There is no document, or it counts no more attempts than versions.
abbrev pub IsCounted : Option Job → Type 0
IsCounted none = Unit
IsCounted (some j) = j.attempts ≤ j.version

Move-Reached : {j j' : Job} (v : ℕ) → Move j j' → v ≤ j.version → v ≤ j'.version
Move-Reached v (stays e) h = ground arith
Move-Reached v (claims a b e d s) h = omega arith
Move-Reached v (completes a b e d s) h = omega arith
Move-Reached v (fails a b e d s) h = omega arith
Move-Reached v (dies b e d s) h = omega arith
Move-Reached v (cancels a b e d s) h = omega arith
Move-Reached v (restarts a b e d s) h = omega arith

Move-IsCounted : {j j' : Job} → Move j j' → j.attempts ≤ j.version → j'.attempts ≤ j'.version
Move-IsCounted (stays e) h = ground arith
Move-IsCounted (claims a b e d s) h = omega arith
Move-IsCounted (completes a b e d s) h = omega arith
Move-IsCounted (fails a b e d s) h = omega arith
Move-IsCounted (dies b e d s) h = omega arith
Move-IsCounted (cancels a b e d s) h = omega arith
Move-IsCounted (restarts a b e d s) h = omega arith

Move-IsSettled : {j j' : Job} → Move j j' → IsSettled (some j) → IsSettled (some j')
Move-IsSettled (stays e) h = ground arith
Move-IsSettled (claims a b e d s) h = ground arith
Move-IsSettled (completes a b e d s) h = inl b
Move-IsSettled (fails a b e d s) h = inr (inl b)
Move-IsSettled (dies b e d s) h = inr (inr b)
Move-IsSettled (cancels a b e d s) h = inr (inr b)
Move-IsSettled (restarts a b e d s) h = ground arith

Transition-Reached : (v : ℕ) (o o' : Option Job) → Transition o o' → Reached v o → Reached v o'
Transition-Reached v (some j) (some j') t h = Move-Reached v t h
Transition-Reached v (some j) none t h = absurd t
Transition-Reached v none o' t h = absurd h

Transition-IsSettled : (o o' : Option Job) → Transition o o' → IsSettled o → IsSettled o'
Transition-IsSettled (some j) (some j') t h = Move-IsSettled t h
Transition-IsSettled (some j) none t h = absurd t
Transition-IsSettled none o' t h = absurd h

Transition-IsCounted : (o o' : Option Job) → Transition o o' → IsCounted o → IsCounted o'
Transition-IsCounted (some j) (some j') t h = Move-IsCounted t h
Transition-IsCounted (some j) none t h = absurd t
Transition-IsCounted none none t h = tt
Transition-IsCounted none (some j) t h = omega arith

-- A document that is past version `v`, or settled, matches no claim at `v`.
returned-Reached :
    (k : String) (v : ℕ) (u : JobUpdate) (o : Option Job)
    → Reached (v + 1) o
    → returned (claim_filter k v) u o ≡ none
unfolding returned claim_filter
returned-Reached k v u none h = refl
returned-Reached k v u (some j) h = ground arith

returned-IsSettled :
    (k : String) (v : ℕ) (u : JobUpdate) (o : Option Job)
    → IsSettled o
    → returned (claim_filter k v) u o ≡ none
unfolding returned claim_filter
returned-IsSettled k v u none h = refl
returned-IsSettled k v u (some j) h = ground arith

written-claimed :
    (k : String) (v now t : ℕ) (j : Job) (o : Option Job)
    → some j ≡ returned (claim_filter k v) (pre_find_one_and_update t (claim_update v now)) o
    → Reached
        (v + 1)
        (written (claim_filter k v) (pre_find_one_and_update t (claim_update v now)) o)
unfolding returned written claim_filter claim_update pre_find_one_and_update
written-claimed k v now t j none e = cc
written-claimed k v now t j (some i) e = ground arith

module _ (c : JobCollection) where
  open c use {Db, doc, update-result}

  perform_all-keeps :
      (P : Option Job → Type 0)
      → ((o o' : Option Job) → Transition o o' → P o → P o')
      → (k : String) (ws : List Write) (d : Db) → P (doc d k)
      → P (doc (perform_all c ws d) k)
  unfolding perform_all
  perform_all-keeps P keep k [] d h = h
  perform_all-keeps P keep k (w ∷ ws) d h =
      perform_all-keeps P keep k ws (perform c w d) (keep _ _ (perform-Transition c w k d) h)

  -- A document never counts more attempts than versions: if that holds of a `jobId` before any
  -- history of write calls, it holds of it afterwards.
  perform_all-IsCounted :
      (k : String) (ws : List Write) (d : Db)
      → IsCounted (doc d k)
      → IsCounted (doc (perform_all c ws d) k)
  perform_all-IsCounted k ws d h = perform_all-keeps IsCounted Transition-IsCounted k ws d h

  claim_job-Reached :
      (k : String) (v now : ℕ) (d : Db) (j : Job)
      → (claim_job c k v now d).0 ≡ ok (some j)
      → Reached (v + 1) (doc (claim_job c k v now d).1 k)
  unfolding claim_job claim_filter
  claim_job-Reached k v now d j e =
      let (r, w) =
        update-result (claim_filter k v) (pre_find_one_and_update now (claim_update v now)) d
          (some j) e in
      rw w (written-claimed k v now now j (doc d k) r)

  perform_all-Reached :
      (k : String) (v : ℕ) (ws : List Write) (d : Db)
      → Reached v (doc d k)
      → Reached v (doc (perform_all c ws d) k)
  perform_all-Reached k v ws d h = perform_all-keeps (Reached v) (Transition-Reached v) k ws d h

  -- Once a job is past a version, through any history of write calls, a claim at this version that
  -- returns at all returns null.
  pub Reached-claim :
      (k : String) (v later : ℕ) (d : Db) (ws : List Write) (o : Option Job)
      → Reached (v + 1) (doc d k)
      → (claim_job c k v later (perform_all c ws d)).0 ≡ ok o
      → o ≡ none
  unfolding claim_job claim_filter
  Reached-claim k v later d ws o h e =
      (update-result _ _ _ o e).0 ∙ returned-Reached k v _ _ (perform_all-Reached k (v + 1) ws d h)

  -- A version of a job is claimed once: after a claim that succeeded, and any history of write calls
  -- by any instance, a second claim at the same version that returns at all returns null.
  pub claim_once :
      (k : String) (v now later : ℕ) (d : Db) (j : Job) (ws : List Write) (o : Option Job)
      → (claim_job c k v now d).0 ≡ ok (some j)
      → (claim_job c k v later (perform_all c ws (claim_job c k v now d).1)).0 ≡ ok o
      → o ≡ none
  claim_once k v now later d j ws o first second =
      Reached-claim k v later _ ws o (claim_job-Reached k v now d j first) second

  -- A job that is completed, failed or dead is never claimed again: whatever calls follow, and
  -- whichever version is asked for, a claim that returns at all returns null.
  pub settled_never_claimed :
      (k : String) (v now : ℕ) (d : Db) (ws : List Write) (o : Option Job)
      → IsSettled (doc d k)
      → (claim_job c k v now (perform_all c ws d)).0 ≡ ok o
      → o ≡ none
  unfolding claim_job claim_filter
  settled_never_claimed k v now d ws o h e =
      (update-result _ _ _ o e).0
      ∙ returned-IsSettled k v _ _ (perform_all-keeps IsSettled Transition-IsSettled k ws d h)
