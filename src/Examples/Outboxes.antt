-- ===== src/Examples/Outboxes.antt =====
-- A tick of the outbox poller over a collection of one event, whose broker throws.
use hyperscale_job_scheduler.Base.{
  ℕ, ◌<◌, String, Bool, true, false, Option, none, some, List, [], ◌∷◌, All, str_eq, ltb,
  if◌then◌else◌, ◌≡◌, refl, inl, inr, arith, Bool-cases, str_eq-cases,
}
use hyperscale_job_scheduler.Exec.{ok, err, ok-eq}
use hyperscale_job_scheduler.Types.{payout_batch}
use hyperscale_job_scheduler.Services.Letters.{OutboxEvent, OutboxStatus}
use hyperscale_job_scheduler.OutboxPoller.{
  OutboxCollection, Outside, Reality, Found, OutboxUpdate, IsDue, updated_at, tick,
}
use hyperscale_job_scheduler.OutboxPoller.Retries.{IsRetried, tick-IsRetried}
use hyperscale_job_scheduler.Examples.MemoryServices.{memory_clock}

abbrev seen : String → Option OutboxEvent → Option OutboxEvent
seen k z = if str_eq "x" k then z else none

abbrev pending_below : ℕ → OutboxStatus → ℕ → Bool
pending_below max OutboxStatus.pending n = ltb n max
pending_below max _ n = false

abbrev found_in : ℕ → Option OutboxEvent → List Found
found_in max none = []
found_in max (some e) =
    if pending_below max e.status e.retry_count then record { id = "x"; event = e } ∷ [] else []

abbrev change : String → OutboxUpdate → Option OutboxEvent → Option OutboxEvent
change i u z = if str_eq "x" i then updated_at u z else z

pending_below-IsDue :
    (max : ℕ) (s : OutboxStatus) (n : ℕ)
    → pending_below max s n ≡ true
    → (s ≡ OutboxStatus.pending) × (n < max)
pending_below-IsDue max OutboxStatus.pending n h = (refl, ground arith)
pending_below-IsDue max OutboxStatus.completed n h = cc
pending_below-IsDue max OutboxStatus.dead n h = cc

pub found_in-IsDue :
    (max : ℕ) (z : Option OutboxEvent) → All (λ f. IsDue max f.event) (found_in max z)
found_in-IsDue max none = tt
found_in-IsDue max (some e) = elim (Bool-cases (pending_below max e.status e.retry_count)) [
  | inl h ↦ rw h (pending_below-IsDue max e.status e.retry_count h, tt)
  | inr h ↦ rw h tt
]

pub seen-change :
    (i : String) (u : OutboxUpdate) (z : Option OutboxEvent)
    → seen i (change i u z) ≡ updated_at u (seen i z)
seen-change i u z = elim (Bool-cases (str_eq "x" i)) [ inl h ↦ rw h refl | inr h ↦ rw h refl ]

pub seen-change_ne :
    (i : String) (u : OutboxUpdate) (k : String) (z : Option OutboxEvent)
    → str_eq i k ≡ false
    → seen k (change i u z) ≡ seen k z
seen-change_ne i u k z h = elim (str_eq-cases "x" i) [
  | inr (_, other) ↦ rw other refl
  | inl same ↦ let absent : str_eq "x" k ≡ false = rw same h in rw absent refl
]

abbrev memory_outbox : OutboxCollection
memory_outbox = record {
  Store = Option OutboxEvent;
  event = λ z k. seen k z;
  find_due = λ max count z. (ok (found_in max z), z);
  update_one = λ i u z. (ok tt, change i u z);
  find-event = λ max count z k. refl;
  find-result = λ max count z found h. rw (ok-eq _ _ h) (found_in-IsDue max z);
  update-event = λ i u z. inr (seen-change i u z);
  update-event_ne = seen-change_ne;
}

abbrev outside : Outside
outside = record {
  outbox = memory_outbox;
  clock = memory_clock;
  Net = ℕ;
  publish = λ key payload n. (err [], n);
}

abbrev letter : OutboxEvent
letter = record {
  type = "job.dead.topic";
  payload = record {
    job_id = "a";
    job_type = payout_batch;
    tenant_id = "t";
    total_attempts = 3;
    last_error = [];
    dead_at = 9;
  };
  status = OutboxStatus.pending;
  retry_count = 4;
  last_error = none;
  processed_at = none;
}

abbrev reality : Reality outside
reality = record { outbox = some letter; time = 100; net = 0 }

tick-IsRetried_example : IsRetried (memory_outbox.event (tick outside reality).1.outbox "x")
tick-IsRetried_example = tick-IsRetried outside "x" reality (inl (refl, omega arith))
