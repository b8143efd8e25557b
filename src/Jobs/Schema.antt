-- ===== src/Jobs/Schema.antt =====
-- JobSchema of src/domains/job/job.model.ts: what its validators ask of a document. An update does not
-- run them, so the repository itself must keep a document so. The types of the fields, and that the
-- attempts are 0 at least, lie in the record.
use hyperscale_job_scheduler.Base.{
  ℕ, String, Bool, true, not, ◌&&◌, ◌||◌, Option, none, some, str_eq, ◌==◌, leb, length,
}
use hyperscale_job_scheduler.Exec.{Message}
use hyperscale_job_scheduler.Types.{Job}

-- `required` of a text asks for one that is not empty.
abbrev is_given : String → Bool
is_given text = not (str_eq text "")

-- JobPriority
unfoldable pub priority_valid : ℕ → Bool
priority_valid priority = priority == 1 || (priority == 2 || priority == 3)

-- `maxlength: 2_000`
unfoldable pub error_valid : Option Message → Bool
error_valid none = true
error_valid (some e) = leb (length e) 2000

unfoldable pub job_valid : Job → Bool
unfolding priority_valid error_valid
job_valid j =
    is_given j.job_id
    && (is_given j.tenant_id && (priority_valid j.priority && error_valid j.last_error))
