-- ===== src/Workers/Calls.antt =====
-- What the executor of src/domains/execution/job-executor.ts sends to other services.
use hyperscale_job_scheduler.Base.{ℕ, some, ◌≡◌, refl, ap, ◌∙◌, ◌⊎◌, inl, inr}
use hyperscale_job_scheduler.Exec.{Exec, Message, pure, try_catch, ◌>>=◌, Result-cases}
use hyperscale_job_scheduler.Exec.Keeps.{Leads, Keeps, Leads-bind, Leads-try_catch, keeping}
use hyperscale_job_scheduler.Types.{
  Job, JobType, reservation_expiry, payout_batch, order_abandonment, low_stock_alert,
  scheduled_report,
}
use hyperscale_job_scheduler.Services.{
  Services, World, on_jobs, on_sets, on_letters, on_audit, on_keys, on_bus, on_clock, on_remote,
}
use hyperscale_job_scheduler.Services.Broker.{Bus}
use hyperscale_job_scheduler.Execution.Publisher.{
  publish_job_claimed, publish_job_completed, publish_job_failed, publish_job_retrying,
}
use hyperscale_job_scheduler.Execution.Heartbeat.{write_heartbeat, clear_heartbeat}
use hyperscale_job_scheduler.Execution.Retry.{exhausted, retried, handle_failure}
use hyperscale_job_scheduler.Execution.Executor.{
  Process, run_handler, attempt, attempt_failed, run_claimed,
}
use hyperscale_job_scheduler.Workers.{
  Post, HttpClient, Desk, handle, handlers, reservation_expiry_post, payout_batch_post,
  order_abandonment_post, low_stock_alert_post, scheduled_report_post,
}
use hyperscale_job_scheduler.Workers.Wiring.{wired, handler_for, job_executor}

-- What the handler of a type posts for a job.
abbrev pub request_for : (h : HttpClient) → JobType → Job → Post
request_for h reservation_expiry = reservation_expiry_post h
request_for h payout_batch = payout_batch_post h
request_for h order_abandonment = order_abandonment_post h
request_for h low_stock_alert = low_stock_alert_post h
request_for h scheduled_report = scheduled_report_post h

-- Nothing was sent, or this one request.
abbrev pub Sent : (h : HttpClient) → h.Net → Post → h.Net → Type 0
Sent h old request new = (new ≡ old) ⊎ (new ≡ (h.post request old).1)

handle-post :
    (h : HttpClient) (r : Job → Post) (j : Job) (d : Desk h)
    → (handle h r j d).1.net ≡ (h.post (r j) d.net).1
unfolding handle
handle-post h r j d =
    let (start, began) = h.clock.date_now-ok d.time in
    elim (Result-cases (h.post (r j) d.net).0) [
      | inl (x, p) ↦ rw (began, p) refl
      | inr (x, p) ↦
          let (end, ended) = h.clock.date_now-ok (h.clock.date_now d.time).1 in
          rw (began, p, ended) refl
    ]

handler-post :
    (h : HttpClient) (t : JobType) (j : Job) (d : Desk h)
    → (handlers h t j d).1.net ≡ (h.post (request_for h t j) d.net).1
unfolding handlers
handler-post h reservation_expiry j d = handle-post h (reservation_expiry_post h) j d
handler-post h payout_batch j d = handle-post h (payout_batch_post h) j d
handler-post h order_abandonment j d = handle-post h (order_abandonment_post h) j d
handler-post h low_stock_alert j d = handle-post h (low_stock_alert_post h) j d
handler-post h scheduled_report j d = handle-post h (scheduled_report_post h) j d

dropped : {S A : Type 0} (m : Exec S A) (d : S) → ((m >>= (λ x. pure (tt {0}))) d).1 ≡ (m d).1
unfolding ◌>>=◌ pure
dropped m d = elim (Result-cases (m d).0) [ inl (e, p) ↦ rw p refl | inr (x, p) ↦ rw p refl ]

module _ (s : Services) (h : HttpClient) (P : h.Net → Type 0) where
  abbrev OnNet : World (wired s h) → Type 0
  OnNet w = P w.remote.net

  on_jobs-OnNet : {A : Type 0} (m : Exec s.jobs.Db A) → Keeps OnNet (on_jobs (wired s h) m)
  unfolding on_jobs
  on_jobs-OnNet m = record { holds = λ w q. q }

  on_sets-OnNet : {A : Type 0} (m : Exec s.sets.Sets A) → Keeps OnNet (on_sets (wired s h) m)
  unfolding on_sets
  on_sets-OnNet m = record { holds = λ w q. q }

  on_letters-OnNet :
      {A : Type 0} (m : Exec s.letters.Store A) → Keeps OnNet (on_letters (wired s h) m)
  unfolding on_letters
  on_letters-OnNet m = record { holds = λ w q. q }

  on_audit-OnNet : {A : Type 0} (m : Exec s.audit.Log A) → Keeps OnNet (on_audit (wired s h) m)
  unfolding on_audit
  on_audit-OnNet m = record { holds = λ w q. q }

  on_keys-OnNet : {A : Type 0} (m : Exec s.keys.Keys A) → Keeps OnNet (on_keys (wired s h) m)
  unfolding on_keys
  on_keys-OnNet m = record { holds = λ w q. q }

  on_clock-OnNet : {A : Type 0} (m : Exec s.clock.Time A) → Keeps OnNet (on_clock (wired s h) m)
  unfolding on_clock
  on_clock-OnNet m = record { holds = λ w q. q }

  on_bus-OnNet : {A : Type 0} (m : Exec (Bus s.broker.Net) A) → Keeps OnNet (on_bus (wired s h) m)
  unfolding on_bus
  on_bus-OnNet m = record { holds = λ w q. q }

ruleset offline = (
  keeping, on_jobs-OnNet, on_sets-OnNet, on_letters-OnNet, on_audit-OnNet, on_keys-OnNet,
  on_clock-OnNet, on_bus-OnNet,
)

module _ (s : Services) (h : HttpClient) (p : Process (wired s h)) (P : h.Net → Type 0) where
  exhausted-OnNet :
      (j : Job) (e : Message) (v : ℕ) → Keeps (OnNet s h P) (exhausted (wired s h) j e v)
  unfolding exhausted
  exhausted-OnNet j e v = search offline

  retried-OnNet : (j : Job) (e : Message) (v : ℕ) → Keeps (OnNet s h P) (retried (wired s h) j e v)
  unfolding retried publish_job_retrying
  retried-OnNet j e v = search offline depth 9

  attempt_failed-OnNet :
      (j : Job) (t : ℕ) (e : Message) → Keeps (OnNet s h P) (attempt_failed (wired s h) p j t e)
  unfolding attempt_failed clear_heartbeat handle_failure publish_job_failed
  attempt_failed-OnNet j t e = search (offline, exhausted-OnNet, retried-OnNet) depth 16

module _ (s : Services) (h : HttpClient) (z : h.Net) (r : Post) where
  abbrev Idle : World (wired s h) → Type 0
  Idle = OnNet s h (λ n. n ≡ z)

  abbrev Called : World (wired s h) → Type 0
  Called = OnNet s h (Sent h z r)

  Idle-Called :
      {A B : Type 0} (first : Exec (World (wired s h)) A) (rest : A → Exec (World (wired s h)) B)
      → Keeps Idle first
      → ((x : A) → Leads Idle Called (rest x))
      → Leads Idle Called (first >>= rest)
  Idle-Called first rest kept called = Leads-bind first rest kept (λ v q. inl q) called

module _ (s : Services) (h : HttpClient) (p : Process (wired s h)) (z : h.Net) (j : Job) where
  abbrev request : Post
  request = request_for h j.job_type j

  abbrev executor : Process (wired s h)
  executor = job_executor s h p

  run_handler-Called :
      Leads
        (Idle s h z request)
        (Called s h z request)
        (run_handler (wired s h) executor j (handler_for h j.job_type))
  unfolding run_handler handler_for on_remote ◌>>=◌ job_executor pure
  run_handler-Called = record {
    holds = λ w q. inr (
        ap (λ d. d.net) (dropped (handlers h j.job_type j) w.remote)
        ∙ handler-post h j.job_type j w.remote
        ∙ ap (λ n. (h.post request n).1) q);
  }

  attempt-Called :
      (t : ℕ) → Leads (Idle s h z request) (Called s h z request) (attempt (wired s h) executor j t)
  unfolding attempt clear_heartbeat publish_job_completed job_executor
  attempt-Called t = Leads-bind _ _ run_handler-Called (λ v q. q) (λ x. search offline depth 16)

  try-Called :
      (t : ℕ)
      → Leads
          (Idle s h z request)
          (Called s h z request)
          (try_catch (attempt (wired s h) executor j t) (attempt_failed (wired s h) executor j t))
  try-Called t =
      Leads-try_catch _ _ (attempt-Called t)
        (λ e. attempt_failed-OnNet s h executor (Sent h z request) j t e)

  pub run_claimed-Called :
      Leads (Idle s h z request) (Called s h z request) (run_claimed (wired s h) executor (some j))
  unfolding run_claimed publish_job_claimed write_heartbeat
  run_claimed-Called = search (offline, Idle-Called, try-Called) depth 16
