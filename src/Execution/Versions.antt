-- ===== src/Execution/Versions.antt =====
-- The version that src/domains/execution/job-executor.ts hands to the repository after a claim: the
-- claimed document already carries the next version, and the executor adds one more.
use hyperscale_job_scheduler.Base.{
  ℕ, ◌+◌, String, false, Option, none, some, ◌≡◌, refl, sym, ap, subst, ◌∙◌, inl, inr, arith,
}
use hyperscale_job_scheduler.Exec.{Exec, Message, ok}
use hyperscale_job_scheduler.Exec.Keeps.{Keeps, keeping}
use hyperscale_job_scheduler.Types.{Job, running}
use hyperscale_job_scheduler.Jobs.Update.{
  JobFilter, JobUpdate, matches, written, returned, pre_find_one_and_update,
}
use hyperscale_job_scheduler.Jobs.Repository.{
  claim_job, mark_completed, mark_failed, mark_dead, running_filter, dead_filter, claim_filter,
  claim_update,
}
use hyperscale_job_scheduler.Services.{
  Services, World, on_jobs, on_sets, on_letters, on_audit, on_keys, on_bus, on_clock, on_remote,
}
use hyperscale_job_scheduler.Services.Broker.{Bus}
use hyperscale_job_scheduler.Execution.Publisher.{
  publish_job_claimed, publish_job_completed, publish_job_failed, publish_job_retrying,
}
use hyperscale_job_scheduler.Execution.Heartbeat.{write_heartbeat, clear_heartbeat}
use hyperscale_job_scheduler.Execution.Retry.{exhausted, retried, handle_failure}
use hyperscale_job_scheduler.Execution.Executor.{
  Process, attempt, attempt_failed, run_claimed, run_handler,
}

written_missed :
    (f : JobFilter) (u : JobUpdate) (j : Job) → matches f j ≡ false → written f u (some j) ≡ some j
unfolding written
written_missed f u j h = rw h

module _ (s : Services) (claimed : Job) where
  open s use {jobs.{doc, update-doc}}

  -- The collection holds the document that the claim returned.
  abbrev pub IsHeld : World s → Type 0
  IsHeld w = doc w.jobs claimed.job_id ≡ some claimed

  missed-IsHeld :
      (f : JobFilter) (u : JobUpdate)
      → f.job_id ≡ claimed.job_id
      → matches f claimed ≡ false
      → Keeps IsHeld (on_jobs s (s.jobs.find_one_and_update f u))
  unfolding on_jobs
  missed-IsHeld f u same miss = record { holds = λ w h. held w (ap (doc w.jobs) same ∙ h) }
    where
      held :
          (w : World s)
          → doc w.jobs f.job_id ≡ some claimed
          → doc (s.jobs.find_one_and_update f u w.jobs).1 claimed.job_id ≡ some claimed
      held w h =
          subst (λ k. doc (s.jobs.find_one_and_update f u w.jobs).1 k ≡ some claimed) same
            (elim (update-doc f u w.jobs) [
              | inl lost ↦ lost ∙ h
              | inr done ↦ done ∙ ap (written f u) h ∙ written_missed f u claimed miss
            ])

  -- The updates that the executor and the retry service ask for miss the claimed document.
  completed-IsHeld :
      (at now : ℕ)
      → Keeps IsHeld (on_jobs s (mark_completed s.jobs claimed.job_id (claimed.version + 1) at now))
  unfolding mark_completed running_filter matches
  completed-IsHeld at now = missed-IsHeld _ _ refl (ground arith)

  failed-IsHeld :
      (e : Message) (next now : ℕ)
      → Keeps IsHeld
          (on_jobs s (mark_failed s.jobs claimed.job_id (claimed.version + 1) e next now))
  unfolding mark_failed running_filter matches
  failed-IsHeld e next now = missed-IsHeld _ _ refl (ground arith)

  dead-IsHeld :
      (now : ℕ)
      → Keeps IsHeld (on_jobs s (mark_dead s.jobs claimed.job_id (claimed.version + 1) now))
  unfolding mark_dead dead_filter matches
  dead-IsHeld now = missed-IsHeld _ _ refl (ground arith)

module _ (s : Services) (claimed : Job) {A : Type 0} where
  on_sets-IsHeld : (m : Exec s.sets.Sets A) → Keeps (IsHeld s claimed) (on_sets s m)
  unfolding on_sets
  on_sets-IsHeld m = record { holds = λ w h. h }

  on_letters-IsHeld : (m : Exec s.letters.Store A) → Keeps (IsHeld s claimed) (on_letters s m)
  unfolding on_letters
  on_letters-IsHeld m = record { holds = λ w h. h }

  on_audit-IsHeld : (m : Exec s.audit.Log A) → Keeps (IsHeld s claimed) (on_audit s m)
  unfolding on_audit
  on_audit-IsHeld m = record { holds = λ w h. h }

  on_keys-IsHeld : (m : Exec s.keys.Keys A) → Keeps (IsHeld s claimed) (on_keys s m)
  unfolding on_keys
  on_keys-IsHeld m = record { holds = λ w h. h }

  on_clock-IsHeld : (m : Exec s.clock.Time A) → Keeps (IsHeld s claimed) (on_clock s m)
  unfolding on_clock
  on_clock-IsHeld m = record { holds = λ w h. h }

  on_remote-IsHeld : (m : Exec s.Remote A) → Keeps (IsHeld s claimed) (on_remote s m)
  unfolding on_remote
  on_remote-IsHeld m = record { holds = λ w h. h }

  on_bus-IsHeld : (m : Exec (Bus s.broker.Net) A) → Keeps (IsHeld s claimed) (on_bus s m)
  unfolding on_bus
  on_bus-IsHeld m = record { holds = λ w h. h }

ruleset holding = (
  keeping, on_sets-IsHeld, on_letters-IsHeld, on_audit-IsHeld, on_keys-IsHeld, on_clock-IsHeld,
  on_remote-IsHeld, on_bus-IsHeld, completed-IsHeld, failed-IsHeld, dead-IsHeld,
)

module _ (s : Services) (claimed : Job) where
  exhausted-IsHeld :
      (e : Message) → Keeps (IsHeld s claimed) (exhausted s claimed e (claimed.version + 1))
  unfolding exhausted
  exhausted-IsHeld e = search holding

  retried-IsHeld :
      (e : Message) → Keeps (IsHeld s claimed) (retried s claimed e (claimed.version + 1))
  unfolding retried publish_job_retrying
  retried-IsHeld e = search holding depth 9

  handle_failure-IsHeld :
      (e : Message) → Keeps (IsHeld s claimed) (handle_failure s claimed e (claimed.version + 1))
  unfolding handle_failure publish_job_failed
  handle_failure-IsHeld e = search (holding, exhausted-IsHeld, retried-IsHeld)

module _ (s : Services) (p : Process s) (claimed : Job) where
  run_handler-IsHeld :
      (h : Option (Job → Exec s.Remote (Unit {0})))
      → Keeps (IsHeld s claimed) (run_handler s p claimed h)
  unfolding run_handler
  run_handler-IsHeld none = search holding
  run_handler-IsHeld (some handle) = search holding

  attempt-IsHeld : (started_at : ℕ) → Keeps (IsHeld s claimed) (attempt s p claimed started_at)
  unfolding attempt clear_heartbeat publish_job_completed
  attempt-IsHeld started_at = search (holding, run_handler-IsHeld) depth 16

  attempt_failed-IsHeld :
      (started_at : ℕ) (e : Message)
      → Keeps (IsHeld s claimed) (attempt_failed s p claimed started_at e)
  unfolding attempt_failed clear_heartbeat
  attempt_failed-IsHeld started_at e = search (holding, handle_failure-IsHeld) depth 12

  run_claimed-IsHeld : Keeps (IsHeld s claimed) (run_claimed s p (some claimed))
  unfolding run_claimed publish_job_claimed write_heartbeat
  run_claimed-IsHeld = search (holding, attempt-IsHeld, attempt_failed-IsHeld) depth 12

-- What a claim leaves.
claim_returned :
    (k : String) (v now t : ℕ) (o : Option Job) (j : Job)
    → some j ≡ returned (claim_filter k v) (pre_find_one_and_update t (claim_update v now)) o
    → (written (claim_filter k v) (pre_find_one_and_update t (claim_update v now)) o ≡ some j)
      × (j.status ≡ running)
      × (j.version ≡ v + 1)
unfolding returned written claim_filter claim_update pre_find_one_and_update
claim_returned k v now t none j e = cc
claim_returned k v now t (some i) j e = ground arith

module _ (s : Services) (p : Process s) where
  open s use {jobs.{doc, doc_job_id, update-result}}

  -- The job is running under the version after `v`.
  abbrev pub IsRunningAt : ℕ → Option Job → Type 0
  IsRunningAt v none = ⊥
  IsRunningAt v (some j) = (j.status ≡ running) × (j.version ≡ v + 1)

  claimed-IsHeld :
      (k : String) (v now : ℕ) (w : World s) (j : Job)
      → (claim_job s.jobs k v now w.jobs).0 ≡ ok (some j)
      → (doc (claim_job s.jobs k v now w.jobs).1 k ≡ some j)
        × (j.job_id ≡ k)
        × (j.status ≡ running)
        × (j.version ≡ v + 1)
  unfolding claim_job claim_filter
  claimed-IsHeld k v now w j e =
      let (r, d) = update-result _ _ w.jobs (some j) e in
      let (there, status, version) = claim_returned k v now now (doc w.jobs k) j r in
      (d ∙ there, doc_job_id _ k j (d ∙ there), status, version)

  -- A job whose claim succeeded is still running, under the version that the claim gave it, when the
  -- executor has returned or thrown, unless another client changes it meanwhile: whether the handler
  -- completed or failed, neither `completed`, `failed` nor `dead` is ever stored.
  pub run_claimed_stays_running :
      (k : String) (v now : ℕ) (w : World s) (j : Job)
      → (on_jobs s (claim_job s.jobs k v now) w).0 ≡ ok (some j)
      → IsRunningAt v
          (doc (run_claimed s p (some j) (on_jobs s (claim_job s.jobs k v now) w).1).1.jobs k)
  unfolding on_jobs
  run_claimed_stays_running k v now w j e =
      let (there, id, status, version) = claimed-IsHeld k v now w j e in
      let w' = (on_jobs s (claim_job s.jobs k v now) w).1 in
      let end = (run_claimed s p (some j) w').1 in
      let held : doc end.jobs j.job_id ≡ some j =
        (run_claimed-IsHeld s p j).holds w' (ap (doc w'.jobs) id ∙ there) in
      let final : doc end.jobs k ≡ some j = ap (doc end.jobs) (sym id) ∙ held in
      rw final (status, version)
