-- ===== src/Poll/Drain.antt =====
-- `drain` of src/domains/scheduler/poll-loop.ts: the wait for the jobs in flight. While it pauses the other
-- callbacks of the process run, so a pause is a parameter.
use hyperscale_job_scheduler.Base.{
  ℕ, zero, suc, ◌+◌, ◌-◌, ◌*◌, ◌≤◌, ◌<◌, Option, none, some, ltb, ◌==◌, if◌then◌else◌, ◌≡◌, refl,
  subst, ◌∙◌, ◌⊎◌, inl, inr, arith, Bool-cases,
}
use hyperscale_job_scheduler.Poll.{PollLoop}

-- The loop, and what Date.now() tells.
pub record Moment (Q : Type 0) : Type 0 where
  pub loop : PollLoop Q
  pub now : ℕ

-- What the wait sees of the state of the process, and how the state moves on while it pauses.
module _ {Q S : Type 0} (seen : S → Moment Q) (pause : S → S) where
  -- The `while` loop, on fuel. A clock that was set back has not passed the timeout.
  unfoldable pub drain_loop : ℕ → ℕ → ℕ → S → Option S
  drain_loop zero timeout_ms start m = none
  drain_loop (suc fuel) timeout_ms start m =
      let rest = drain_loop fuel timeout_ms start (pause m) in
      if (seen m).loop.active_jobs == 0
      then some m
      else if ltb timeout_ms ((seen m).now - start)
      then some m
      else rest

  unfoldable pub drain : ℕ → ℕ → S → Option S
  unfolding drain_loop
  drain fuel timeout_ms m = drain_loop fuel timeout_ms (seen m).now m

module _ {Q S : Type 0} (seen : S → Moment Q) (pause : S → S) where
  -- How the wait from this moment on is over.
  Ends : ℕ → ℕ → ℕ → S → Type 0
  Ends fuel timeout_ms start m =
      (e : S) × ((drain_loop seen pause fuel timeout_ms start m ≡ some e)
        × (((seen e).loop.active_jobs ≡ 0) ⊎ (timeout_ms < (seen e).now - start)))

  look :
      (fuel timeout_ms start : ℕ) (m : S)
      → Ends (suc fuel) timeout_ms start m
        ⊎ ((drain_loop seen pause (suc fuel) timeout_ms start m
              ≡ drain_loop seen pause fuel timeout_ms start (pause m))
            × ((seen m).now - start ≤ timeout_ms))
  unfolding Ends drain_loop
  look fuel timeout_ms start m = elim (Bool-cases ((seen m).loop.active_jobs == 0)) [
    | inl idle ↦ inl (m, (rw idle refl, inl (ground arith)))
    | inr busy ↦ elim (Bool-cases (ltb timeout_ms ((seen m).now - start))) [
      | inl late ↦ inl (m, (rw (busy, late) refl, inr (ground arith)))
      | inr early ↦ inr (rw (busy, early) refl, ground arith)
    ]
  ]

  -- What every pause keeps holds when the wait is over.
  drain_loop_kept :
      (P : S → Type 0) (fuel timeout_ms start : ℕ) (m e : S)
      → ((n : S) → P n → P (pause n))
      → drain_loop seen pause fuel timeout_ms start m ≡ some e
      → P m
      → P e
  unfolding drain_loop
  drain_loop_kept P zero timeout_ms start m e kept h p = absurd (ground (arith, h))
  drain_loop_kept P (suc fuel) timeout_ms start m e kept h p =
      elim (Bool-cases ((seen m).loop.active_jobs == 0)) [
        | inl idle ↦ let g : some m ≡ some e = rw idle at h in subst P (ground (arith, g)) p
        | inr busy ↦ elim (Bool-cases (ltb timeout_ms ((seen m).now - start))) [
          | inl late ↦
              let g : some m ≡ some e = rw (busy, late) at h in subst P (ground (arith, g)) p
          | inr early ↦
              drain_loop_kept P fuel timeout_ms start (pause m) e kept (rw (busy, early) at h)
                (kept m p)
        ]
      ]

  pub drain_kept :
      (P : S → Type 0) (fuel timeout_ms : ℕ) (m e : S)
      → ((n : S) → P n → P (pause n))
      → drain seen pause fuel timeout_ms m ≡ some e
      → P m
      → P e
  unfolding drain
  drain_kept P fuel timeout_ms m e = drain_loop_kept P fuel timeout_ms (seen m).now m e

  module _ (takes : (m : S) → (seen m).now + 500 ≤ (seen (pause m)).now) where
    drain_loop-Ends :
        (looks timeout_ms start : ℕ) (m : S)
        → start + timeout_ms < (seen m).now + 500 * looks
        → Ends (suc looks) timeout_ms start m
    unfolding Ends
    drain_loop-Ends zero timeout_ms start m room = elim (look zero timeout_ms start m) [
      | inl over ↦ over
      | inr (_, early) ↦ absurd (omega arith)
    ]
    drain_loop-Ends (suc looks) timeout_ms start m room =
        let (e, (ends, why)) =
          drain_loop-Ends looks timeout_ms start (pause m) (omega (arith, takes m)) in
        elim (look (suc looks) timeout_ms start m) [
          | inl over ↦ over
          | inr (again, _) ↦ (e, (again ∙ ends, why))
        ]

    -- Where a pause takes 500 ms at least, the wait of 30 seconds ends after 62 looks at the latest,
    -- and then either no job is in flight or more than 30 seconds have passed.
    pub drain_ends :
        (m : S)
        → (e : S) × ((drain seen pause 62 30000 m ≡ some e)
            × (((seen e).loop.active_jobs ≡ 0) ⊎ (30000 < (seen e).now - (seen m).now)))
    unfolding drain Ends
    drain_ends m = drain_loop-Ends 61 30000 (seen m).now m (omega arith)
