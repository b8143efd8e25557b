-- ===== src/Jobs/Repository.antt =====
-- JobRepository of src/domains/job/job.repository.ts: the write path, each method with the time at
-- which it runs. Log lines are left out.
pub mod Lifecycle
pub mod Storable
pub mod Validity
use hyperscale_job_scheduler.Base.{ℕ, ◌+◌, ◌-◌, String, true, false, Option, none, some, take}
use hyperscale_job_scheduler.Exec.{Exec, Message}
use hyperscale_job_scheduler.Types.{Job, EnqueueJobInput, pending, running, completed, failed, dead}
use hyperscale_job_scheduler.Jobs.Update.{
  JobFilter, StaleFilter, JobUpdate, no_set, set_only, pre_find_one_and_update,
}
use hyperscale_job_scheduler.Jobs.Collection.{JobCollection}

-- The document that `$setOnInsert` writes.
unfoldable pub new_job : EnqueueJobInput → Job
new_job input = record {
  job_id = input.job_id;
  job_type = input.job_type;
  tenant_id = input.tenant_id;
  status = pending;
  priority = input.priority;
  scheduled_at = input.scheduled_at;
  next_run_at = input.next_run_at;
  cron_expression = input.cron_expression;
  attempts = 0;
  max_attempts = input.max_attempts;
  last_attempt_at = none;
  last_error = none;
  started_at = none;
  completed_at = none;
  payload = input.payload;
  version = 0;
  expires_at = none;
}

-- The filter and the update of each method.
unfoldable pub claim_filter : String → ℕ → JobFilter
claim_filter job_id version = record {
  job_id = job_id;
  status = some pending;
  version = some version;
}

unfoldable pub claim_update : ℕ → ℕ → JobUpdate
claim_update version now = record {
  set = record no_set {
    status = some running;
    started_at = some now;
    last_attempt_at = some now;
    version = some (version + 1);
  };
  unset_started_at = false;
  inc_attempts = 1;
}

unfoldable pub running_filter : String → ℕ → JobFilter
running_filter job_id version = record {
  job_id = job_id;
  status = some running;
  version = some version;
}

unfoldable pub completed_update : ℕ → ℕ → JobUpdate
completed_update version completed_at = set_only (record no_set {
  status = some completed;
  completed_at = some completed_at;
  version = some (version + 1);
})

unfoldable pub failed_update : ℕ → Message → ℕ → JobUpdate
failed_update version error next_run_at = set_only (record no_set {
  status = some failed;
  last_error = some (take 2000 error);
  next_run_at = some next_run_at;
  version = some (version + 1);
})

unfoldable pub dead_filter : String → ℕ → JobFilter
dead_filter job_id version = record { job_id = job_id; status = none; version = some version }

unfoldable pub dead_update : ℕ → JobUpdate
dead_update version = set_only (record no_set { status = some dead; version = some (version + 1) })

unfoldable pub cancel_filter : String → JobFilter
cancel_filter job_id = record { job_id = job_id; status = some pending; version = none }

unfoldable pub cancel_update : JobUpdate
cancel_update = set_only (record no_set { status = some dead })

-- `new Date(Date.now() - ageMs)`, for a clock past `ageMs`.
unfoldable pub stale_filter : ℕ → ℕ → StaleFilter
stale_filter now age_ms = record { status = running; started_before = now - age_ms }

unfoldable pub stale_update : JobUpdate
stale_update = record {
  set = record no_set { status = some pending };
  unset_started_at = true;
  inc_attempts = 0;
}

module _ (c : JobCollection) where
  open c use {Db, find_one, find_one_and_update, find_one_or_insert, update_many}

  -- JobModel.findOneAndUpdate, behind the schema's hook.
  unfoldable pub hooked_update : JobFilter → JobUpdate → ℕ → Exec Db (Option Job)
  hooked_update f u now = find_one_and_update f (pre_find_one_and_update now u)

  unfoldable pub create_job : EnqueueJobInput → Exec Db Job
  unfolding new_job
  create_job input = find_one_or_insert (new_job input)

  unfoldable pub claim_job : String → ℕ → ℕ → Exec Db (Option Job)
  unfolding hooked_update
  claim_job job_id version now =
      hooked_update (claim_filter job_id version) (claim_update version now) now

  unfoldable pub mark_completed : String → ℕ → ℕ → ℕ → Exec Db (Option Job)
  unfolding hooked_update
  mark_completed job_id version completed_at now =
      hooked_update (running_filter job_id version) (completed_update version completed_at) now

  unfoldable pub mark_failed : String → ℕ → Message → ℕ → ℕ → Exec Db (Option Job)
  unfolding hooked_update
  mark_failed job_id version error next_run_at now =
      hooked_update (running_filter job_id version) (failed_update version error next_run_at) now

  unfoldable pub mark_dead : String → ℕ → ℕ → Exec Db (Option Job)
  unfolding hooked_update
  mark_dead job_id version now =
      hooked_update (dead_filter job_id version) (dead_update version) now

  unfoldable pub cancel_job : String → ℕ → Exec Db (Option Job)
  unfolding hooked_update
  cancel_job job_id now = hooked_update (cancel_filter job_id) cancel_update now

  unfoldable pub reset_stale_jobs : ℕ → ℕ → Exec Db ℕ
  reset_stale_jobs age_ms now = update_many (stale_filter now age_ms) stale_update

  unfoldable pub find_by_job_id : String → Exec Db (Option Job)
  find_by_job_id job_id = find_one job_id
