-- ===== src/Examples/MemoryJobs.antt =====
-- The `jobs` collection in memory: a document by its `jobId`.
use hyperscale_job_scheduler.Base.{
  String, false, Option, none, some, str_eq, if◌then◌else◌, ◌≡◌, refl, ◌∙◌, inr, arith, eq_refl,
}
use hyperscale_job_scheduler.Exec.{ok, ok-eq}
use hyperscale_job_scheduler.Types.{Job}
use hyperscale_job_scheduler.Jobs.Update.{
  JobFilter, StaleFilter, JobUpdate, written, returned, restarted, upserted,
}
use hyperscale_job_scheduler.Jobs.Collection.{JobCollection}

abbrev pub Memory : Type 0
Memory = String → Option Job

-- A stored document carries its key.
abbrev keyed : String → Option Job → Option Job
keyed k none = none
keyed k (some j) = some (record j { job_id = k })

abbrev read : Memory → String → Option Job
read d k = keyed k (d k)

abbrev store : String → Option Job → Memory → Memory
store k o d i = if str_eq k i then o else d i

pub keyed-written :
    (k : String) (f : JobFilter) (u : JobUpdate) (o : Option Job)
    → keyed k (written f u (keyed k o)) ≡ written f u (keyed k o)
unfolding written
keyed-written k f u none = refl
keyed-written k f u (some j) = ground arith

pub keyed-restarted :
    (k : String) (f : StaleFilter) (u : JobUpdate) (o : Option Job)
    → keyed k (restarted f u (keyed k o)) ≡ restarted f u (keyed k o)
unfolding restarted
keyed-restarted k f u none = refl
keyed-restarted k f u (some j) = ground arith

pub keyed-job_id : (k : String) (o : Option Job) (j : Job) → keyed k o ≡ some j → j.job_id ≡ k
keyed-job_id k none j e = cc
keyed-job_id k (some i) j e = ground arith

pub keyed-upserted :
    (j : Job) (o : Option Job)
    → keyed j.job_id (some (upserted j (keyed j.job_id o))) ≡ some (upserted j (keyed j.job_id o))
keyed-upserted j none = refl
keyed-upserted j (some i) = refl

pub read-store_self : (k : String) (o : Option Job) (d : Memory) → read (store k o d) k ≡ keyed k o
read-store_self k o d = rw (eq_refl k)

pub read-store_ne :
    (k : String) (o : Option Job) (i : String) (d : Memory)
    → str_eq k i ≡ false
    → read (store k o d) i ≡ read d i
read-store_ne k o i d h = rw h

abbrev pub memory_jobs : JobCollection
memory_jobs = record {
  Db = Memory;
  doc = read;
  find_one = λ k d. (ok (read d k), d);
  find_one_and_update = λ f u d.
      (ok (returned f u (read d f.job_id)), store f.job_id (written f u (read d f.job_id)) d);
  find_one_or_insert = λ j d.
      (ok (upserted j (read d j.job_id)), store j.job_id (some (upserted j (read d j.job_id))) d);
  update_many = λ f u d. (ok 0, λ k. restarted f u (read d k));
  doc_job_id = λ d k j e. keyed-job_id k (d k) j e;
  find_one-doc = λ k j d. refl;
  find_one-result = λ k d o e. ok-eq _ _ e;
  update-result = λ f u d o e. (
    ok-eq _ _ e,
    read-store_self f.job_id (written f u (read d f.job_id)) d
        ∙ keyed-written f.job_id f u (d f.job_id),
  );
  update-doc = λ f u d. inr (
      read-store_self f.job_id (written f u (read d f.job_id)) d
      ∙ keyed-written f.job_id f u (d f.job_id));
  update-doc_ne = λ f u k d h. read-store_ne f.job_id (written f u (read d f.job_id)) k d h;
  insert-result = λ j r d e. (
    ok-eq _ _ e,
    read-store_self j.job_id (some (upserted j (read d j.job_id))) d
        ∙ keyed-upserted j (d j.job_id),
  );
  insert-doc = λ j d. inr (
      read-store_self j.job_id (some (upserted j (read d j.job_id))) d
      ∙ keyed-upserted j (d j.job_id));
  insert-doc_ne = λ j k d h. read-store_ne j.job_id (some (upserted j (read d j.job_id))) k d h;
  update_many-doc = λ f u k d. inr (keyed-restarted k f u (d k));
  update_many-result = λ f u k d n e. keyed-restarted k f u (d k);
}
