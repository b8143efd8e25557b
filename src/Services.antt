-- ===== src/Services.antt =====
-- The systems outside the repository that its components call, each behind an interface, and the
-- state of all of them at once. A component's call of one leaves the others alone.
pub mod Events
pub mod Broker
pub mod Letters
pub mod Audit
pub mod Runtime
pub mod Documents
use hyperscale_job_scheduler.Base.{ℕ, Bool}
use hyperscale_job_scheduler.Exec.{Exec}
use hyperscale_job_scheduler.Exec.Keeps.{Keeps}
use hyperscale_job_scheduler.Jobs.Collection.{JobCollection}
use hyperscale_job_scheduler.Queue.SortedSets.{SortedSets}
use Broker.{MessageBroker, Bus}
use Letters.{LetterStore}
use Audit.{ExecutionLog}
use Runtime.{KeyStore, Clock}

pub record Services : Type 1 where
  pub jobs : JobCollection
  pub sets : SortedSets
  pub letters : LetterStore
  pub audit : ExecutionLog
  pub keys : KeyStore
  pub broker : MessageBroker
  pub clock : Clock
  -- The services that the job handlers post to.
  pub Remote : Type 0

pub record World (s : Services) : Type 0 where
  pub jobs : s.jobs.Db
  pub sets : s.sets.Sets
  pub letters : s.letters.Store
  pub audit : s.audit.Log
  pub keys : s.keys.Keys
  pub bus : Bus s.broker.Net
  pub time : s.clock.Time
  pub remote : s.Remote

module _ (s : Services) {A : Type 0} where
  unfoldable pub on_jobs : Exec s.jobs.Db A → Exec (World s) A
  on_jobs m w = let (r, x) = m w.jobs in (r, record w { jobs = x })

  unfoldable pub on_sets : Exec s.sets.Sets A → Exec (World s) A
  on_sets m w = let (r, x) = m w.sets in (r, record w { sets = x })

  unfoldable pub on_letters : Exec s.letters.Store A → Exec (World s) A
  on_letters m w = let (r, x) = m w.letters in (r, record w { letters = x })

  unfoldable pub on_audit : Exec s.audit.Log A → Exec (World s) A
  on_audit m w = let (r, x) = m w.audit in (r, record w { audit = x })

  unfoldable pub on_keys : Exec s.keys.Keys A → Exec (World s) A
  on_keys m w = let (r, x) = m w.keys in (r, record w { keys = x })

  unfoldable pub on_bus : Exec (Bus s.broker.Net) A → Exec (World s) A
  on_bus m w = let (r, x) = m w.bus in (r, record w { bus = x })

  unfoldable pub on_clock : Exec s.clock.Time A → Exec (World s) A
  on_clock m w = let (r, x) = m w.time in (r, record w { time = x })

  unfoldable pub on_remote : Exec s.Remote A → Exec (World s) A
  on_remote m w = let (r, x) = m w.remote in (r, record w { remote = x })
