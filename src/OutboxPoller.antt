-- ===== src/OutboxPoller.antt =====
-- src/shared/utils/outbox-poller.ts: flush, and the timer's callback that calls it. Log lines are left
-- out. The collection of src/infra/models/OutboxModel.ts is an interface with laws; publishToExchange,
-- with the event's type as the routing key, is a parameter.
pub mod Retries
pub mod Timer
use hyperscale_job_scheduler.Base.{
  ℕ, suc, ◌+◌, ◌≤◌, ◌<◌, String, Bool, true, false, Option, none, some, List, [], ◌∷◌, length, All,
  leb, str_eq, if◌then◌else◌, ◌≡◌, ◌⊎◌,
}
use hyperscale_job_scheduler.Exec.{Exec, Message, ok, pure, try_catch, ◌>>=◌, ◌>>◌}
use hyperscale_job_scheduler.Services.Events.{JobDeadEvent}
use hyperscale_job_scheduler.Services.Letters.{OutboxEvent, OutboxStatus}
use hyperscale_job_scheduler.Services.Runtime.{Clock}

abbrev pub batch_size : ℕ
batch_size = 50

abbrev pub max_retry_count : ℕ
max_retry_count = 5

-- An event with its `_id`.
pub record Found : Type 0 where
  pub id : String
  pub event : OutboxEvent

-- The two updates that a flush makes.
pub data OutboxUpdate : Type 0 where
  -- status completed, with processedAt
  published : ℕ → OutboxUpdate
  -- status, retryCount and lastError
  refused : OutboxStatus → ℕ → Message → OutboxUpdate

unfoldable pub updated : OutboxUpdate → OutboxEvent → OutboxEvent
updated (published now) e = record e { status = OutboxStatus.completed; processed_at = some now }
updated (refused status retry_count error) e = record e {
  status = status;
  retry_count = retry_count;
  last_error = some error;
}

abbrev pub updated_at : OutboxUpdate → Option OutboxEvent → Option OutboxEvent
updated_at u none = none
updated_at u (some e) = some (updated u e)

-- What the query asks of an event.
abbrev pub IsDue : ℕ → OutboxEvent → Type 0
IsDue max e = (e.status ≡ OutboxStatus.pending) × (e.retry_count < max)

pub record OutboxCollection : Type 1 where
  pub Store : Type 0
  pub event : Store → String → Option OutboxEvent
  -- find({ status: "pending", retryCount: { $lt } }).sort({ createdAt: 1 }).limit(count)
  pub find_due : ℕ → ℕ → Exec Store (List Found)
  pub update_one : String → OutboxUpdate → Exec Store (Unit {0})
  pub find-event :
      (max count : ℕ) (z : Store) (k : String) → event (find_due max count z).1 k ≡ event z k
  pub find-result :
      (max count : ℕ) (z : Store) (found : List Found)
      → (find_due max count z).0 ≡ ok found
      → All (λ f. IsDue max f.event) found
  pub update-event :
      (i : String) (u : OutboxUpdate) (z : Store)
      → (event (update_one i u z).1 i ≡ event z i)
        ⊎ (event (update_one i u z).1 i ≡ updated_at u (event z i))
  pub update-event_ne :
      (i : String) (u : OutboxUpdate) (k : String) (z : Store)
      → str_eq i k ≡ false
      → event (update_one i u z).1 k ≡ event z k

-- What a flush calls, and the state of all of it.
pub record Outside : Type 1 where
  pub outbox : OutboxCollection
  pub clock : Clock
  pub Net : Type 0
  pub publish : String → JobDeadEvent → Exec Net (Unit {0})

pub record Reality (o : Outside) : Type 0 where
  pub outbox : o.outbox.Store
  pub time : o.clock.Time
  pub net : o.Net

-- Whether this was the last attempt, and what is stored then.
unfoldable pub refusal : OutboxEvent → Message → OutboxUpdate
refusal e error =
    let new_retry_count = e.retry_count + 1 in
    refused
      (if leb max_retry_count new_retry_count then OutboxStatus.dead else OutboxStatus.pending)
      new_retry_count error

module _ (o : Outside) where
  abbrev pub on_outbox : {A : Type 0} → Exec o.outbox.Store A → Exec (Reality o) A
  on_outbox m w = let (r, x) = m w.outbox in (r, record w { outbox = x })

  abbrev pub on_time : {A : Type 0} → Exec o.clock.Time A → Exec (Reality o) A
  on_time m w = let (r, x) = m w.time in (r, record w { time = x })

  abbrev pub on_net : {A : Type 0} → Exec o.Net A → Exec (Reality o) A
  on_net m w = let (r, x) = m w.net in (r, record w { net = x })

  unfoldable pub deliver : Found → Exec (Reality o) (Unit {0})
  unfolding ◌>>=◌
  deliver f = do
    on_net (o.publish f.event.type f.event.payload)
    now ← on_time o.clock.date_now
    on_outbox (o.outbox.update_one f.id (published now))

  unfoldable pub refuse : Found → Message → Exec (Reality o) (Unit {0})
  unfolding refusal
  refuse f error = on_outbox (o.outbox.update_one f.id (refusal f.event error))

  unfoldable pub flush_event : Found → Exec (Reality o) (Unit {0})
  unfolding deliver refuse try_catch
  flush_event f = try_catch (deliver f) (refuse f)

  unfoldable pub flush_events : List Found → Exec (Reality o) (Unit {0})
  unfolding flush_event ◌>>=◌
  flush_events [] = pure tt
  flush_events (f ∷ fs) = do flush_event f; flush_events fs

  unfoldable pub flush : Exec (Reality o) (Unit {0})
  unfolding flush_events ◌>>=◌
  flush = do events ← on_outbox (o.outbox.find_due max_retry_count batch_size); flush_events events

  -- The callback of the timer, less the timer.
  unfoldable pub tick : Exec (Reality o) (Unit {0})
  unfolding flush try_catch
  tick = try_catch flush (λ _. pure tt)
