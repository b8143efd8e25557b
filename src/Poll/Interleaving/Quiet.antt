-- ===== src/Poll/Interleaving/Quiet.antt =====
-- What a loop that was stopped still does.
use hyperscale_job_scheduler.Base.{
  ℕ, suc, ◌+◌, ◌≤◌, false, List, ◌∷◌, ◌++◌, length, ◌≡◌, refl, ap, arith, ◌∙◌,
}
use hyperscale_job_scheduler.Poll.{PollLoop, start, stop, settle}
use hyperscale_job_scheduler.Poll.Source.{DueQueue}
use hyperscale_job_scheduler.Poll.Capacity.{jobs_in}
use hyperscale_job_scheduler.Poll.Interleaving.{
  Phase, Machine, rearm, started, Fires, named, stray, Goes, begins, asks, counts, Step, starts,
  stops, skips, gates, goes, ends, settles,
}
use hyperscale_job_scheduler.Poll.Interleaving.Ticks.{length-middle, jobs_in-append}
use hyperscale_job_scheduler.Poll.Interleaving.Awaits.{dispatched_timer}

-- What is left of the loop that its timer does not name.
abbrev pub left : {Q : Type 0} → Machine Q → ℕ
left m = m.strays + length m.ticks

-- The loop is stopped, with no more left of it than before, and where nothing was left it took no job.
pub record WindsDown {Q : Type 0} (m n : Machine Q) : Type 0 where
  pub off : n.loop.running ≡ false
  pub unset : n.loop.timer ≡ false
  pub fewer : left n ≤ left m
  pub takes_none : left m ≡ 0 → n.loop.queue ≡ m.loop.queue
  pub adds_none : left m ≡ 0 → jobs_in n.loop.in_flight ≤ jobs_in m.loop.in_flight

module _ (dq : DueQueue) where
  open dq use {Queue}

  -- A run after which, and between whose steps, the loop is not running: nobody starts it.
  pub data Stopped (others : ℕ) (m : Machine Queue) : Machine Queue → Type 0 where
    idle : Stopped others m m
    further :
        {n o : Machine Queue}
        → Stopped others m n
        → Step dq others n o
        → o.loop.running ≡ false
        → Stopped others m o

  Goes-timer : {s s' : PollLoop Queue} {p q : Phase} → Goes dq s p q s' → s'.timer ≡ s.timer
  Goes-timer (begins now free) = refl
  Goes-timer (asks now slots t ts some_left) = refl
  Goes-timer {s} (counts now slots t r ts) = dispatched_timer t slots r s.queue s

  -- With a tick under way something is left.
  some_left :
      (m : Machine Queue) (before after : List Phase) (p : Phase)
      → m.ticks ≡ before ++ (p ∷ after)
      → left m ≡ suc (m.strays + length (before ++ after))
  some_left m before after p at =
      omega (arith, ap (length {A = Phase}) at, length-middle before p after)

  -- Only a stray timeout fires.
  Fires-stray :
      {m d : Machine Queue}
      → Fires m d
      → m.loop.timer ≡ false
      → (m.strays ≡ suc d.strays) × (d.ticks ≡ m.ticks) × (d.loop ≡ m.loop)
  Fires-stray (named t e) off = absurd (ground arith)
  Fires-stray (stray a b c) off = (a, b, c)

  Step-WindsDown :
      (others : ℕ) {m n : Machine Queue}
      → Step dq others m n
      → m.loop.running ≡ false
      → m.loop.timer ≡ false
      → n.loop.running ≡ false
      → WindsDown m n
  unfolding started start stop settle rearm
  Step-WindsDown others {m} {n} (starts few e) r t h =
      let e' = ap (λ x. x.loop.running) e in absurd (ground arith)
  Step-WindsDown others {m} {n} (stops e) r t h = ground arith
  Step-WindsDown others {m} {n} (skips d f full e) r t h =
      let (s, k, l) = Fires-stray f t in ground arith
  Step-WindsDown others {m} {n} (gates d f free e) r t h =
      let (s, k, l) = Fires-stray f t in ground (arith, ap (length {A = Phase}) k)
  Step-WindsDown others {m} {n} (goes before after p q s at g e) r t h = record {
    off = h;
    unset = ap (λ x. x.loop.timer) e ∙ (Goes-timer g ∙ t);
    fewer = ground (arith, some_left m before after p at, length-middle before q after);
    takes_none = λ z. absurd (omega (arith, some_left m before after p at));
    adds_none = λ z. absurd (omega (arith, some_left m before after p at));
  }
  Step-WindsDown others {m} {n} (ends before after p at g e) r t h =
      rw (e, r)
        (record {
          off = refl;
          unset = t;
          fewer = omega (arith, some_left m before after p at);
          takes_none = λ z. refl;
          adds_none = λ z. omega arith;
        })
  Step-WindsDown others {m} {n} (settles b before after at e) r t h = rw e (record {
    off = r;
    unset = t;
    fewer = omega arith;
    takes_none = λ z. refl;
    adds_none = λ z. omega (arith, ap jobs_in at, jobs_in-append before b after);
  })

  -- A loop that is stopped, with its timer cleared, winds down for as long as nobody starts it,
  -- whatever fires, ends or settles: it has no more stray timeouts and ticks under way than when it
  -- was stopped, and if it had none it dequeues nothing and takes no job.
  pub Stopped-WindsDown :
      (others : ℕ) {m n : Machine Queue}
      → Stopped others m n
      → m.loop.running ≡ false
      → m.loop.timer ≡ false
      → WindsDown m n
  Stopped-WindsDown others {m} idle r t = record {
    off = r;
    unset = t;
    fewer = omega arith;
    takes_none = λ z. refl;
    adds_none = λ z. omega arith;
  }
  Stopped-WindsDown others {m} (further {n} {o} run st h) r t =
      let a = Stopped-WindsDown others run r t in
      let b = Step-WindsDown others st a.off a.unset h in
      record {
        off = b.off;
        unset = b.unset;
        fewer = omega (arith, a.fewer, b.fewer);
        takes_none = λ z. b.takes_none (omega (arith, a.fewer)) ∙ a.takes_none z;
        adds_none = λ z. omega (arith, a.adds_none z, b.adds_none (omega (arith, a.fewer)));
      }
