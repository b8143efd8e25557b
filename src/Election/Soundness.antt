-- ===== src/Election/Soundness.antt =====
-- What the instances of a cluster keep.
use hyperscale_job_scheduler.Base.{
  ℕ, true, false, Option, some, ◌==◌, ◌≡◌, refl, sym, ap, ◌⊎◌, inl, inr, arith, Bool-cases, ◌∙◌,
}
use hyperscale_job_scheduler.Election.{Environment}
use hyperscale_job_scheduler.Election.Leadership.{
  Action, perform, IsConsistent, perform-IsConsistent,
}
use hyperscale_job_scheduler.Election.Leases.{
  Leases, Grants, untouched, acquired, refused, extended, lost, released, perform-Grants, GrantsAt,
}
use hyperscale_job_scheduler.Election.Instances.{
  Cluster, instance_of, act, Later, Step, acts, passes, Reach, here, next, IsSound,
}

module _ (v : Environment) (g : Leases v.locks) where
  open g use {
    Value, value, held, issued, one_holder, acquire-issued, acquire-held, acquire_fresh,
    extend-issued, extend-held, extend_only, release-issued, release-held,
  }

  pub Grants-Later :
      {s s' : v.locks.Net} {l l' : Option v.locks.Lock} → Grants v.locks s l s' l' → Later v g s s'
  Grants-Later (untouched e f) = rw e (record { stays_issued = λ a h. h; stays_gone = λ a h k. k })
  Grants-Later {s} (acquired x p e f) =
      rw e (record { stays_issued = acquire-issued s; stays_gone = acquire-held s })
  Grants-Later {s} (refused e f) =
      rw e (record { stays_issued = acquire-issued s; stays_gone = acquire-held s })
  Grants-Later {s} (extended x y p q e f) =
      rw e (record { stays_issued = extend-issued x s; stays_gone = extend-held x s })
  Grants-Later {s} (lost x e f) =
      rw e (record { stays_issued = extend-issued x s; stays_gone = extend-held x s })
  Grants-Later {s} (released x e f) =
      rw e (record { stays_issued = release-issued x s; stays_gone = release-held x s })

  -- The lock after a call has the value of the lock before it, or a new one.
  Origin : v.locks.Net → Option v.locks.Lock → v.locks.Net → v.locks.Lock → Type 0
  Origin s l s' y =
      ((x : v.locks.Lock) × (l ≡ some x) × (value y ≡ value x))
      ⊎ ((issued s (value y) ≡ false) × (issued s' (value y) ≡ true))

  origin :
      {s s' : v.locks.Net} {l l' : Option v.locks.Lock}
      → Grants v.locks s l s' l'
      → (y : v.locks.Lock) → l' ≡ some y
      → Origin s l s' y
  unfolding Origin
  origin (untouched e f) y h = inl (y, sym f ∙ h, refl)
  origin {s} (acquired x p e f) y h =
      let same : x ≡ y = cc in
      let (new, given) = acquire_fresh s x p in inr (rw (e, sym same) (new, given))
  origin (refused e f) y h = inl (y, sym f ∙ h, refl)
  origin {s} (extended x z p q e f) y h =
      let same : z ≡ y = cc in inl (x, p, rw⁻¹ same ((extend_only x z s q).1))
  origin (lost x e f) y h = absurd (cc)
  origin (released x e f) y h = absurd (cc)

  -- The instance that acts, and the others.
  pub act_self :
      (i j : ℕ) (a : Action) (c : Cluster v)
      → (j == i) ≡ true
      → (act v i a c).nodes j ≡ (perform v a (instance_of v c i)).1
  unfolding act
  act_self i j a c e = rw e refl

  pub act_other :
      (i j : ℕ) (a : Action) (c : Cluster v) → (j == i) ≡ false → (act v i a c).nodes j ≡ c.nodes j
  unfolding act
  act_other i j a c e = rw e refl

  -- A call of an instance that leaves the cluster sound.
  pub act-Grants :
      (i : ℕ) (a : Action) (c : Cluster v)
      → IsConsistent (c.nodes i)
      → Grants v.locks c.net
          (c.nodes i).lock
          (act v i a c).net
          (perform v a (instance_of v c i)).1.lock
  unfolding act GrantsAt IsConsistent
  act-Grants i a c h = perform-Grants v a (instance_of v c i) h

  act-IsConsistent :
      (i j : ℕ) (a : Action) (c : Cluster v) → IsSound v g c → IsConsistent ((act v i a c).nodes j)
  unfolding IsConsistent
  act-IsConsistent i j a c h = elim (Bool-cases (j == i)) [
    | inl e ↦
        rw (act_self i j a c e) (perform-IsConsistent v a (instance_of v c i) (h.consistent i))
    | inr e ↦ rw (act_other i j a c e) (h.consistent j)
  ]

  act_given :
      (i j : ℕ) (a : Action) (c : Cluster v) (l : v.locks.Lock)
      → IsSound v g c
      → ((act v i a c).nodes j).lock ≡ some l
      → issued (act v i a c).net (value l) ≡ true
  unfolding Origin
  act_given i j a c l h p =
      let grants = act-Grants i a c (h.consistent i) in
      let later = Grants-Later grants in
      elim (Bool-cases (j == i)) [
        | inl e ↦ elim (origin grants l (sym (ap (λ n. n.lock) (act_self i j a c e)) ∙ p)) [
          | inl (x, q, same) ↦ rw same (later.stays_issued (value x) (h.given i x q))
          | inr (new, given) ↦ given
        ]
        | inr e ↦
            later.stays_issued (value l)
              (h.given j l (sym (ap (λ n. n.lock) (act_other i j a c e)) ∙ p))
      ]

  -- The lock of the instance that acted is not that of another.
  apart :
      (i j : ℕ) (a : Action) (c : Cluster v) (l m : v.locks.Lock)
      → IsSound v g c
      → (perform v a (instance_of v c i)).1.lock ≡ some l
      → (c.nodes j).lock ≡ some m
      → value l ≡ value m
      → i ≡ j
  unfolding Origin
  apart i j a c l m h p q same = elim (origin (act-Grants i a c (h.consistent i)) l p) [
    | inl (x, r, kept) ↦ h.own i j x m r q (sym kept ∙ same)
    | inr (new, given) ↦
        let old : issued c.net (value l) ≡ true = rw same (h.given j m q) in absurd (ground arith)
  ]

  act_own :
      (i j k : ℕ) (a : Action) (c : Cluster v) (l m : v.locks.Lock)
      → IsSound v g c
      → ((act v i a c).nodes j).lock ≡ some l
      → ((act v i a c).nodes k).lock ≡ some m
      → value l ≡ value m
      → j ≡ k
  act_own i j k a c l m h p q same = elim (Bool-cases (j == i)) [
    | inl e ↦
        let p' = sym (ap (λ n. n.lock) (act_self i j a c e)) ∙ p in
        elim (Bool-cases (k == i)) [
          | inl f ↦ ground arith
          | inr f ↦
              let r =
                apart i k a c l m h p' (sym (ap (λ n. n.lock) (act_other i k a c f)) ∙ q) same in
              absurd (ground arith)
        ]
    | inr e ↦
        let p' = sym (ap (λ n. n.lock) (act_other i j a c e)) ∙ p in
        elim (Bool-cases (k == i)) [
          | inl f ↦
              let r =
                apart i j a c m l h (sym (ap (λ n. n.lock) (act_self i k a c f)) ∙ q) p'
                  (sym same) in
              absurd (ground arith)
          | inr f ↦ h.own j k l m p' (sym (ap (λ n. n.lock) (act_other i k a c f)) ∙ q) same
        ]
  ]

  Step-IsSound : {c d : Cluster v} → Step v g c d → IsSound v g c → IsSound v g d
  Step-IsSound {c} (acts i a) h = record {
    consistent = λ j. act-IsConsistent i j a c h;
    given = λ j l. act_given i j a c l h;
    own = λ j k l m. act_own i j k a c l m h;
  }
  Step-IsSound {c} (passes s k later) h = record {
    consistent = h.consistent;
    given = λ j l p. later.stays_issued (value l) (h.given j l p);
    own = h.own;
  }

  -- Through any calls of any instances and any time that passes: every instance stays consistent, the
  -- value of its lock was given to it, and no two instances have locks of one value.
  pub Reach-IsSound : {c d : Cluster v} → Reach v g c d → IsSound v g c → IsSound v g d
  Reach-IsSound here h = h
  Reach-IsSound (next r s) h = Step-IsSound s (Reach-IsSound r h)
