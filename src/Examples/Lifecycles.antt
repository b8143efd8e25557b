-- ===== src/Examples/Lifecycles.antt =====
-- The life of one payout job in the in-memory collection.
use hyperscale_job_scheduler.Base.{
  true, str_eq-cases, subst, str_eq, if◌then◌else◌, Option, none, some, List, [], ◌∷◌, ◌≡◌, refl,
  inl, inr,
}
use hyperscale_job_scheduler.Exec.{ok}
use hyperscale_job_scheduler.Jobs.Schema.{job_valid}
use hyperscale_job_scheduler.Jobs.Repository.Validity.{AllStorable, Storable, perform_all-Storable}
use hyperscale_job_scheduler.Types.{EnqueueJobInput, Job, running, failed}
use hyperscale_job_scheduler.Jobs.Update.{pre_find_one_and_update, returned, restarted, written}
use hyperscale_job_scheduler.Jobs.Repository.{
  new_job, claim_job, mark_completed, reset_stale_jobs, cancel_job, cancel_filter, claim_filter,
  running_filter, claim_update, completed_update, stale_filter,
}
use hyperscale_job_scheduler.Jobs.Repository.Lifecycle.{Transition, Write, perform, perform_all}
use hyperscale_job_scheduler.Jobs.Repository.Lifecycle.Transitions.{perform-Transition}
use hyperscale_job_scheduler.Jobs.Repository.Lifecycle.Claims.{claim_once, settled_never_claimed}
use hyperscale_job_scheduler.Examples.MemoryJobs.{memory_jobs, Memory}
use hyperscale_job_scheduler.Examples.MemoryServices.{payout, stored}

abbrev history : List Write
history =
    Write.claims "a" 0 10
    ∷ Write.completes "a" 1 20 20
    ∷ Write.cancels "a" 30
    ∷ Write.resets 5 40
    ∷ []

perform-Transition_example :
    Transition
      (memory_jobs.doc stored "a")
      (memory_jobs.doc (perform memory_jobs (Write.claims "a" 0 10) stored) "a")
perform-Transition_example = perform-Transition memory_jobs (Write.claims "a" 0 10) "a" stored

abbrev claimed : Job
claimed = record payout {
  status = running;
  started_at = some 10;
  last_attempt_at = some 10;
  version = 1;
  attempts = 1;
}

claim_answers : (claim_job memory_jobs "a" 0 10 stored).0 ≡ ok (some claimed)
unfolding claim_job returned claim_filter claim_update pre_find_one_and_update
claim_answers = refl

abbrev after_claim : Memory
after_claim = (claim_job memory_jobs "a" 0 10 stored).1

claim_fails :
    (claim_job memory_jobs "a" 0 50 (perform_all memory_jobs history after_claim)).0 ≡ ok none
unfolding perform_all perform claim_job mark_completed returned reset_stale_jobs restarted
    cancel_job cancel_filter claim_filter written running_filter pre_find_one_and_update
    claim_update completed_update stale_filter
claim_fails = refl

claim_once_example : ◌≡◌ {A = Option Job} none none
claim_once_example =
    claim_once memory_jobs "a" 0 10 50 stored claimed history none claim_answers claim_fails

abbrev settled : Memory
settled k =
    if str_eq "a" k
    then some (record payout { status = failed; version = 2; attempts = 1 })
    else none

settled_fails :
    (claim_job memory_jobs "a" 2 50 (perform_all memory_jobs history settled)).0 ≡ ok none
unfolding perform_all perform claim_job mark_completed returned reset_stale_jobs restarted
    cancel_job cancel_filter claim_filter written running_filter pre_find_one_and_update
    claim_update completed_update stale_filter
settled_fails = refl

settled_never_claimed_example : ◌≡◌ {A = Option Job} none none
settled_never_claimed_example =
    settled_never_claimed memory_jobs "a" 2 50 settled history none (inr (inl refl)) settled_fails

abbrev report_input : EnqueueJobInput
report_input = record {
  job_id = "b";
  job_type = payout.job_type;
  tenant_id = "t";
  scheduled_at = 5;
  next_run_at = 5;
  cron_expression = none;
  payload = [];
  max_attempts = 5;
  priority = 2;
}

stored-Storable : Storable memory_jobs stored
unfolding job_valid
stored-Storable k = elim (str_eq-cases "a" k) [
  | inl same ↦
      subst (λ i. AllStorable (memory_jobs.doc stored i)) same
        (record { valid = refl; expiry = refl })
  | inr (_, other) ↦ rw other tt
]

report_fits : job_valid (new_job report_input) ≡ true
unfolding job_valid new_job
report_fits = refl

perform_all-Storable_example :
    Storable memory_jobs (perform_all memory_jobs (Write.creates report_input ∷ history) stored)
perform_all-Storable_example =
    perform_all-Storable memory_jobs (Write.creates report_input ∷ history) stored
      (report_fits, (tt, (tt, (tt, (tt, tt))))) stored-Storable
