-- ===== src/Election/Rivals.antt =====
-- Two leaders do not stay.
use hyperscale_job_scheduler.Base.{
  ℕ, true, false, some, ◌≡◌, ◌≢◌, refl, ◌⊎◌, inl, inr, arith, Bool-cases,
}
use hyperscale_job_scheduler.Exec.{Result-cases}
use hyperscale_job_scheduler.Election.{Environment, Node, leader, watch_tick, lead}
use hyperscale_job_scheduler.Election.Leadership.{ticked, perform, IsConsistent, stance}
use hyperscale_job_scheduler.Election.Leases.{Leases}
use hyperscale_job_scheduler.Election.Instances.{
  Cluster, instance_of, act, Later, acts, passes, Reach, here, next, IsSound, Without, nothing,
  other, elapsed, IsDown, StepsDown,
}
use hyperscale_job_scheduler.Election.Soundness.{
  Grants-Later, act-Grants, act_other, act_self, Reach-IsSound,
}
use hyperscale_job_scheduler.Poll

module _ (v : Environment) (g : Leases v.locks) where
  open g use {
    Value, value, held, issued, one_holder, acquire-issued, acquire-held, acquire_fresh,
    extend-issued, extend-held, extend_only, release-issued, release-held,
  }

  -- An instance that leads with a lock that the key no longer has.
  Overtaken : ℕ → Cluster v → v.locks.Lock → Type 0
  Overtaken i c l =
      ((c.nodes i).state ≡ leader)
      × ((c.nodes i).lock ≡ some l)
      × (issued c.net (value l) ≡ true)
      × (held c.net (value l) ≡ false)

  Overtaken-later :
      (i : ℕ) (c d : Cluster v) (l : v.locks.Lock)
      → d.nodes i ≡ c.nodes i
      → Later v g c.net d.net
      → Overtaken i c l
      → Overtaken i d l
  unfolding Overtaken
  Overtaken-later i c d l e later (s, p, given, gone) =
      rw e (s, p, later.stays_issued (value l) given, later.stays_gone (value l) given gone)

  -- It stays so until it makes a call; every instance is consistent meanwhile.
  waits :
      (i : ℕ) (c : Cluster v) (l : v.locks.Lock)
      → IsSound v g c
      → Overtaken i c l
      → (d : Cluster v) → Without v g i c d
      → IsSound v g d × Overtaken i d l
  waits i c l h o d nothing = (h, o)
  waits i c l h o _ (other {d} j a run ne) =
      let (sound, over) = waits i c l h o d run in
      (
        Reach-IsSound v g (next here (acts j a)) sound,
        Overtaken-later i d (act v j a d) l (act_other v g j i a d (ground arith))
            (Grants-Later v g (act-Grants v g j a d (sound.consistent j))) over,
      )
  waits i c l h o _ (elapsed {d} s k run later) =
      let (sound, over) = waits i c l h o d run in
      (
        Reach-IsSound v g (next here (passes s k later)) sound,
        Overtaken-later i d (record d { net = s; keys = k }) l refl later over,
      )

  -- The lock cannot be extended, so the next tick gives up.
  gives_up :
      (n : Node v) (l : v.locks.Lock)
      → n.state ≡ leader
      → n.lock ≡ some l
      → held n.net (value l) ≡ false
      → IsDown (perform v ticked n).1
  unfolding perform watch_tick lead Poll.stop
  gives_up n l s p gone = elim (Result-cases (v.locks.extend_lock l n.net).0) [
    | inl (e, q) ↦ rw (s, p, q) (record { follows = refl; unlocked = refl; quiet = refl })
    | inr (m, q) ↦ let kept = extend_only l m n.net q in absurd (ground arith)
  ]

  Overtaken-StepsDown :
      (i : ℕ) (c : Cluster v) (l : v.locks.Lock)
      → IsSound v g c
      → Overtaken i c l
      → StepsDown v g i c
  unfolding Overtaken
  Overtaken-StepsDown i c l h o d run =
      let (sound, (s, p, given, gone)) = waits i c l h o d run in
      rw (act_self v g i i ticked d (ground arith)) (gives_up (instance_of v d i) l s p gone)

  leads_with :
      (n : Node v) → IsConsistent n → n.state ≡ leader → (l : v.locks.Lock) × (n.lock ≡ some l)
  unfolding IsConsistent
  leads_with n h e = elim (stance n.state n.lock n.poll_loop.running h) [
    | inl (s, (l, p)) ↦ (l, p)
    | inr (s, p, q) ↦ absurd (cc)
  ]

  -- Of two instances that lead at once, after any calls of any instances and any time that passed from
  -- a sound cluster, one has lost its lock: whatever the others do before its next watch tick, with
  -- this tick it is a follower that holds no lock and does not poll.
  pub rivals-StepsDown :
      {c d : Cluster v}
      → Reach v g c d
      → IsSound v g c
      → (i j : ℕ) → i ≢ j
      → (d.nodes i).state ≡ leader
      → (d.nodes j).state ≡ leader
      → StepsDown v g i d ⊎ StepsDown v g j d
  unfolding Overtaken
  rivals-StepsDown {d} r h i j ne s t =
      let sound = Reach-IsSound v g r h in
      let (l, p) = leads_with (d.nodes i) (sound.consistent i) s in
      let (m, q) = leads_with (d.nodes j) (sound.consistent j) t in
      elim (Bool-cases (held d.net (value l))) [
        | inr gone ↦ inl (Overtaken-StepsDown i d l sound (s, p, sound.given i l p, gone))
        | inl has ↦ elim (Bool-cases (held d.net (value m))) [
          | inr gone ↦ inr (Overtaken-StepsDown j d m sound (t, q, sound.given j m q, gone))
          | inl too ↦
              absurd (ne (sound.own i j l m p q (one_holder d.net (value l) (value m) has too)))
        ]
      ]
