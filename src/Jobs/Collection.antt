-- ===== src/Jobs/Collection.antt =====
-- The `jobs` collection, as the repository uses the database driver. The driver is not code of the
-- repository: its calls are parameters, and the laws state their documented behaviour. A call that
-- throws may or may not have reached the database.
use hyperscale_job_scheduler.Base.{ℕ, String, false, Option, some, str_eq, ◌≡◌, ◌⊎◌}
use hyperscale_job_scheduler.Exec.{Exec, ok}
use hyperscale_job_scheduler.Types.{Job}
use hyperscale_job_scheduler.Jobs.Update.{
  JobFilter, StaleFilter, JobUpdate, written, returned, restarted, upserted,
}

pub record JobCollection : Type 1 where
  pub Db : Type 0
  -- The document with this `jobId`; the unique index leaves one at most.
  pub doc : Db → String → Option Job
  pub find_one : String → Exec Db (Option Job)
  pub find_one_and_update : JobFilter → JobUpdate → Exec Db (Option Job)
  pub find_one_or_insert : Job → Exec Db Job
  pub update_many : StaleFilter → JobUpdate → Exec Db ℕ
  -- A document is stored under its own `jobId`.
  pub doc_job_id : (d : Db) (k : String) (j : Job) → doc d k ≡ some j → j.job_id ≡ k
  pub find_one-doc : (k j : String) (d : Db) → doc (find_one k d).1 j ≡ doc d j
  pub find_one-result :
      (k : String) (d : Db) (o : Option Job) → (find_one k d).0 ≡ ok o → o ≡ doc d k
  pub update-result :
      (f : JobFilter) (u : JobUpdate) (d : Db) (o : Option Job)
      → (find_one_and_update f u d).0 ≡ ok o
      → (o ≡ returned f u (doc d f.job_id))
        × (doc (find_one_and_update f u d).1 f.job_id ≡ written f u (doc d f.job_id))
  pub update-doc :
      (f : JobFilter) (u : JobUpdate) (d : Db)
      → (doc (find_one_and_update f u d).1 f.job_id ≡ doc d f.job_id)
        ⊎ (doc (find_one_and_update f u d).1 f.job_id ≡ written f u (doc d f.job_id))
  pub update-doc_ne :
      (f : JobFilter) (u : JobUpdate) (k : String) (d : Db)
      → str_eq f.job_id k ≡ false
      → doc (find_one_and_update f u d).1 k ≡ doc d k
  pub insert-result :
      (j r : Job) (d : Db)
      → (find_one_or_insert j d).0 ≡ ok r
      → (r ≡ upserted j (doc d j.job_id))
        × (doc (find_one_or_insert j d).1 j.job_id ≡ some (upserted j (doc d j.job_id)))
  pub insert-doc :
      (j : Job) (d : Db)
      → (doc (find_one_or_insert j d).1 j.job_id ≡ doc d j.job_id)
        ⊎ (doc (find_one_or_insert j d).1 j.job_id ≡ some (upserted j (doc d j.job_id)))
  pub insert-doc_ne :
      (j : Job) (k : String) (d : Db)
      → str_eq j.job_id k ≡ false
      → doc (find_one_or_insert j d).1 k ≡ doc d k
  pub update_many-doc :
      (f : StaleFilter) (u : JobUpdate) (k : String) (d : Db)
      → (doc (update_many f u d).1 k ≡ doc d k)
        ⊎ (doc (update_many f u d).1 k ≡ restarted f u (doc d k))
  pub update_many-result :
      (f : StaleFilter) (u : JobUpdate) (k : String) (d : Db) (n : ℕ)
      → (update_many f u d).0 ≡ ok n
      → doc (update_many f u d).1 k ≡ restarted f u (doc d k)
