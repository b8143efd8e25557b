-- ===== src/OutboxPoller/Retries.antt =====
-- How often the poller tries an event.
use hyperscale_job_scheduler.Base.{
  ℕ, ◌≤◌, ◌<◌, String, Option, none, some, List, [], ◌∷◌, All, ◌≡◌, ◌⊎◌, inl, inr, arith,
  str_eq-cases, subst,
}
use hyperscale_job_scheduler.Exec.{Message, pure, Result-cases, ◌>>=◌}
use hyperscale_job_scheduler.Exec.Keeps.{Keeps, Keeps-bind, Keeps-pure, Keeps-try_catch}
use hyperscale_job_scheduler.Services.Letters.{OutboxEvent, OutboxStatus}
use hyperscale_job_scheduler.OutboxPoller.{
  Outside, Reality, Found, OutboxUpdate, published, updated, updated_at, IsDue, refusal, deliver,
  refuse, flush_event, flush_events, flush, tick, max_retry_count, on_outbox, on_time, on_net,
  batch_size,
}

-- A pending event has attempts left, and no event counts more than MAX_RETRY_COUNT of them.
abbrev pub IsRetried : Option OutboxEvent → Type 0
IsRetried none = Unit
IsRetried (some e) =
    ((e.status ≡ OutboxStatus.pending) × (e.retry_count < max_retry_count))
    ⊎ (((e.status ≡ OutboxStatus.completed) ⊎ (e.status ≡ OutboxStatus.dead))
        × (e.retry_count ≤ max_retry_count))

refusal-IsRetried :
    (f : Found) (error : Message) (e : Option OutboxEvent)
    → IsDue max_retry_count f.event
    → IsRetried e
    → IsRetried (updated_at (refusal f.event error) e)
unfolding refusal updated
refusal-IsRetried f error none due h = tt
refusal-IsRetried f error (some e) due h = ground arith

published-IsRetried :
    (now : ℕ) (e : Option OutboxEvent) → IsRetried e → IsRetried (updated_at (published now) e)
unfolding updated
published-IsRetried now none h = tt
published-IsRetried now (some e) h = ground arith

module _ (o : Outside) (k : String) where
  open o use {outbox.{event, update_one, update-event, update-event_ne, find-event, find-result}}

  -- The event `k` is as it should be.
  abbrev pub IsSound : Reality o → Type 0
  IsSound w = IsRetried (event w.outbox k)

  update-IsSound :
      (i : String) (u : OutboxUpdate)
      → ((e : Option OutboxEvent) → IsRetried e → IsRetried (updated_at u e))
      → Keeps IsSound (on_outbox o (update_one i u))
  update-IsSound i u keep = record {
    holds = λ w h. elim (str_eq-cases i k) [
      | inr (_, other) ↦ rw (update-event_ne i u k w.outbox other) h
      | inl same ↦
          let h' : IsRetried (event w.outbox i) = rw same h in
          subst (λ j. IsRetried (event (update_one i u w.outbox).1 j)) same
            (elim (update-event i u w.outbox) [
              | inl lost ↦ rw lost h'
              | inr done ↦ rw done (keep (event w.outbox i) h')
            ])
    ];
  }

  deliver-IsSound : (f : Found) → Keeps IsSound (deliver o f)
  unfolding deliver
  deliver-IsSound f =
      Keeps-bind (on_net o (o.publish f.event.type f.event.payload))
        (λ _. on_time o o.clock.date_now >>= λ now. on_outbox o (update_one f.id (published now)))
        (record { holds = λ w h. h })
        (λ _.
          Keeps-bind (on_time o o.clock.date_now)
            (λ now. on_outbox o (update_one f.id (published now))) (record { holds = λ w h. h })
            (λ now. update-IsSound f.id (published now) (published-IsRetried now)))

  refuse-IsSound :
      (f : Found) (error : Message)
      → IsDue max_retry_count f.event
      → Keeps IsSound (refuse o f error)
  unfolding refuse
  refuse-IsSound f error due =
      update-IsSound f.id (refusal f.event error) (λ e. refusal-IsRetried f error e due)

  flush_event-IsSound :
      (f : Found) → IsDue max_retry_count f.event → Keeps IsSound (flush_event o f)
  unfolding flush_event
  flush_event-IsSound f due =
      Keeps-try_catch (deliver o f) (refuse o f) (deliver-IsSound f)
        (λ error. refuse-IsSound f error due)

  flush_events-IsSound :
      (fs : List Found)
      → All (λ f. IsDue max_retry_count f.event) fs
      → Keeps IsSound (flush_events o fs)
  unfolding flush_events
  flush_events-IsSound [] due = Keeps-pure tt
  flush_events-IsSound (f ∷ fs) (due, later) =
      Keeps-bind (flush_event o f) (λ _. flush_events o fs) (flush_event-IsSound f due)
        (λ _. flush_events-IsSound fs later)

  flush-IsSound : Keeps IsSound (flush o)
  unfolding flush
  flush-IsSound = record {
    holds = λ w h.
        let z = w.outbox in
        let same : IsRetried (event (o.outbox.find_due max_retry_count batch_size z).1 k) =
          rw (find-event max_retry_count batch_size z k) h in
        elim (Result-cases (o.outbox.find_due max_retry_count batch_size z).0) [
          | inl (x, p) ↦ rw p same
          | inr (fs, p) ↦ rw p (
              (flush_events-IsSound fs (find-result max_retry_count batch_size z fs p)).holds
                (record w { outbox = (o.outbox.find_due max_retry_count batch_size z).1 }) same)
        ];
  }

  -- Through a tick of the poller, whatever the collection, the broker and the clock answer or throw,
  -- an event keeps this: it is pending with fewer than MAX_RETRY_COUNT attempts, so that a later flush
  -- finds it, or it is completed or dead with at most that many.
  pub tick-IsRetried :
      (w : Reality o) → IsRetried (event w.outbox k) → IsRetried (event (tick o w).1.outbox k)
  unfolding tick
  tick-IsRetried w h =
      (Keeps-try_catch (flush o) (λ _. pure tt) flush-IsSound (λ _. Keeps-pure tt)).holds w h
