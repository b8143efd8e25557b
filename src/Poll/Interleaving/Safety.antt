-- ===== src/Poll/Interleaving/Safety.antt =====
-- What the interleavings keep: the counter counts the jobs in flight, and it stays within the limit.
use hyperscale_job_scheduler.Base.{
  ℕ, suc, ◌+◌, ◌*◌, ◌-◌, ◌≤◌, false, List, ◌∷◌, ◌++◌, length, ltb, ◌≡◌, ap, subst, arith,
  Bool-cases, inl, inr,
}
use hyperscale_job_scheduler.Constants.{poll_batch_size, min_free_slots, max_concurrent_jobs}
use hyperscale_job_scheduler.Poll.{PollLoop, start, stop, settle}
use hyperscale_job_scheduler.Poll.Source.{DueQueue}
use hyperscale_job_scheduler.Poll.Capacity.{jobs_in}
use hyperscale_job_scheduler.Poll.Interleaving.{
  Phase, waiting, Machine, rearm, started, chains, Fires, named, stray, Goes, Step, starts, stops,
  skips, gates, goes, ends, settles, Reach, here, next,
}
use hyperscale_job_scheduler.Poll.Interleaving.Ticks.{
  all_open, AllBounded, all_open-append, length-middle, all_open-le, AllBounded-middle,
  AllBounded-replace, jobs_in-append,
}
use hyperscale_job_scheduler.Poll.Interleaving.Awaits.{Goes-Steady}

-- With at most this many other ticks under way beside one.
pub record IsSafe {Q : Type 0} (others : ℕ) (m : Machine Q) : Type 0 where
  pub counted : m.loop.active_jobs ≡ jobs_in m.loop.in_flight
  pub room : m.loop.active_jobs + all_open m.ticks ≤ max_concurrent_jobs + others * poll_batch_size
  pub few : chains m ≤ others + 1
  pub bounded : AllBounded m.ticks

module _ (dq : DueQueue) where
  open dq use {Queue}

  Fires-lt : {m d : Machine Queue} → Fires m d → suc (chains d) ≡ chains m
  Fires-lt {m} {d} (named t e) = ground arith
  Fires-lt {m} {d} (stray a b c) = ground arith

  -- A loop that sets its timer after a timeout fired or a tick ended.
  rearm-IsSafe :
      (others : ℕ) (m : Machine Queue)
      → m.loop.active_jobs ≡ jobs_in m.loop.in_flight
      → m.loop.active_jobs + all_open m.ticks ≤ max_concurrent_jobs + others * poll_batch_size
      → chains m ≤ others
      → AllBounded m.ticks
      → IsSafe others (rearm m)
  unfolding rearm
  rearm-IsSafe others m c r f b = elim (Bool-cases m.loop.running) [
    | inl on ↦ rw on (record { counted = c; room = r; few = ground arith; bounded = b })
    | inr off ↦ rw off (record { counted = c; room = r; few = omega arith; bounded = b })
  ]

  -- A timeout that fires leaves the rest as it was.
  Fires-ticks : {m d : Machine Queue} → Fires m d → d.ticks ≡ m.ticks
  Fires-ticks {m} {d} (named t e) = ap (λ x. x.ticks) e
  Fires-ticks {m} {d} (stray a b c) = b

  Fires-active : {m d : Machine Queue} → Fires m d → d.loop.active_jobs ≡ m.loop.active_jobs
  Fires-active {m} {d} (named t e) = ap (λ x. x.loop.active_jobs) e
  Fires-active {m} {d} (stray a b c) = ap (λ x. x.active_jobs) c

  Fires-in_flight : {m d : Machine Queue} → Fires m d → d.loop.in_flight ≡ m.loop.in_flight
  Fires-in_flight {m} {d} (named t e) = ap (λ x. x.loop.in_flight) e
  Fires-in_flight {m} {d} (stray a b c) = ap (λ x. x.in_flight) c

  Fires-IsSafe :
      (others : ℕ) {m d : Machine Queue}
      → Fires m d
      → IsSafe others m
      → (d.loop.active_jobs ≡ jobs_in d.loop.in_flight)
        × (d.loop.active_jobs + all_open d.ticks ≤ max_concurrent_jobs + others * poll_batch_size)
        × (chains d ≤ others)
        × AllBounded d.ticks
  Fires-IsSafe others {m} {d} f h =
      let e = Fires-active f in
      let ticks = Fires-ticks f in
      (
        rw (e, Fires-in_flight f) h.counted,
        rw (e, ticks) h.room,
        omega (arith, Fires-lt f, h.few),
        rw ticks h.bounded,
      )

  gated-IsSafe :
      (others : ℕ) {m d : Machine Queue}
      → Fires m d
      → ltb (max_concurrent_jobs - m.loop.active_jobs) min_free_slots ≡ false
      → IsSafe others m
      → IsSafe others
          (record d { ticks = waiting (max_concurrent_jobs - m.loop.active_jobs) ∷ d.ticks })
  gated-IsSafe others {m} {d} f free h =
      let (c, r, few, b) = Fires-IsSafe others f h in
      record {
        counted = c;
        room = ground (arith, Fires-active f, all_open-le d.ticks b, few);
        few = omega (arith, few);
        bounded = (omega arith, b);
      }

  goes-IsSafe :
      (others : ℕ) (m : Machine Queue) (before after : List Phase) (p q : Phase)
      (s : PollLoop Queue)
      → m.ticks ≡ before ++ (p ∷ after)
      → Goes dq m.loop p q s
      → IsSafe others m
      → IsSafe others (record m { ticks = before ++ (q ∷ after); loop = s })
  goes-IsSafe others m before after p q s at g h =
      let b : AllBounded (before ++ (p ∷ after)) = subst AllBounded at h.bounded in
      let t = Goes-Steady dq g h.counted (AllBounded-middle before p after b).0 in
      record {
        counted = t.counted';
        room = omega (
          arith,
          h.room,
          t.room',
          ap all_open at,
          all_open-append before p after,
          all_open-append before q after,
        );
        few = ground (
          arith,
          h.few,
          t.timer',
          ap (length {A = Phase}) at,
          length-middle before p after,
          length-middle before q after,
        );
        bounded = AllBounded-replace before p q after t.bounded' b;
      }

  ends-IsSafe :
      (others : ℕ) (m : Machine Queue) (before after : List Phase) (p : Phase)
      → m.ticks ≡ before ++ (p ∷ after)
      → IsSafe others m
      → IsSafe others (rearm (record m { ticks = before ++ after }))
  ends-IsSafe others m before after p at h =
      rearm-IsSafe others (record m { ticks = before ++ after }) h.counted
        (omega (arith, h.room, ap all_open at, all_open-append before p after))
        (omega (arith, h.few, ap (length {A = Phase}) at, length-middle before p after))
        (AllBounded-middle before p after (subst AllBounded at h.bounded)).1

  started-IsSafe :
      (others : ℕ) (m : Machine Queue)
      → (m.loop.running ≡ false → chains m ≤ others)
      → IsSafe others m
      → IsSafe others (started m)
  unfolding started start
  started-IsSafe others m few h = elim (Bool-cases m.loop.running) [
    | inl on ↦
        rw on (record { counted = h.counted; room = h.room; few = h.few; bounded = h.bounded })
    | inr off ↦ rw off (record {
      counted = h.counted;
      room = h.room;
      few = ground (arith, few off);
      bounded = h.bounded;
    })
  ]

  Step-IsSafe :
      (others : ℕ) {m n : Machine Queue} → Step dq others m n → IsSafe others m → IsSafe others n
  unfolding stop settle
  Step-IsSafe others {m} {n} (starts few e) h = rw e (started-IsSafe others m few h)
  Step-IsSafe others {m} {n} (stops e) h = rw e (record {
    counted = h.counted;
    room = h.room;
    few = ground (arith, h.few);
    bounded = h.bounded;
  })
  Step-IsSafe others {m} {n} (skips d f full e) h =
      let (c, r, few, b) = Fires-IsSafe others f h in rw e (rearm-IsSafe others d c r few b)
  Step-IsSafe others {m} {n} (gates d f free e) h = rw e (gated-IsSafe others f free h)
  Step-IsSafe others {m} {n} (goes before after p q s at g e) h =
      rw e (goes-IsSafe others m before after p q s at g h)
  Step-IsSafe others {m} {n} (ends before after p at g e) h =
      rw e (ends-IsSafe others m before after p at h)
  Step-IsSafe others {m} {n} (settles b before after at e) h = rw e (record {
    counted = ground (arith, jobs_in-append before b after, ap jobs_in at, h.counted);
    room = omega (arith, h.room);
    few = h.few;
    bounded = h.bounded;
  })

  -- In every interleaving of timeouts, awaits of the ticks under way, settled dispatches, starts and
  -- stops, where a stopped loop is started only while at most `others` of its timeouts and ticks are
  -- left: the counter is the number of jobs in flight, and with the slots that the ticks under way may
  -- still fill it stays within MAX_CONCURRENT_JOBS + others * POLL_BATCH_SIZE, and at most others + 1
  -- timeouts and ticks are left, if all this was so at first. Where nothing is left at a start,
  -- `others` is 0 and the bound MAX_CONCURRENT_JOBS.
  pub Reach-IsSafe :
      (others : ℕ) {m n : Machine Queue} → Reach dq others m n → IsSafe others m → IsSafe others n
  Reach-IsSafe others here h = h
  Reach-IsSafe others (next r s) h = Step-IsSafe others s (Reach-IsSafe others r h)
