-- ===== src/Examples/MemoryServices.antt =====
-- Every outside service in memory.
use hyperscale_job_scheduler.Base.{
  ℕ, ◌+◌, String, false, Option, some, List, [], ◌∷◌, ◌++◌, str_eq, if◌then◌else◌, ◌≡◌, refl, inl,
  inr, arith, Bool-cases,
}
use hyperscale_job_scheduler.Exec.{Exec, Result, ok, err, Result-cases}
use hyperscale_job_scheduler.Types.{Job, payout_batch, pending}
use hyperscale_job_scheduler.Services.{Services, World}
use hyperscale_job_scheduler.Services.Events.{Event}
use hyperscale_job_scheduler.Services.Broker.{MessageBroker}
use hyperscale_job_scheduler.Services.Letters.{LetterStore, DeadLetter, OutboxEvent, letter_valid}
use hyperscale_job_scheduler.Services.Audit.{ExecutionLog, Execution, execution_valid}
use hyperscale_job_scheduler.Services.Runtime.{KeyStore, Clock}
use hyperscale_job_scheduler.Execution.Executor.{Process}
use hyperscale_job_scheduler.Examples.MemorySets.{memory_sets}
use hyperscale_job_scheduler.Examples.MemoryJobs.{memory_jobs}

abbrev Writes : Type 0
Writes = List DeadLetter × List OutboxEvent

-- What was written, and what the one session has staged.
abbrev Letters : Type 0
Letters = Writes × Writes

abbrev pub no_letters : Letters
no_letters = (([], []), ([], []))

abbrev with_letter : DeadLetter → Writes → Writes
with_letter d w = (w.0 ++ (d ∷ []), w.1)

abbrev with_event : OutboxEvent → Writes → Writes
with_event x w = (w.0, w.1 ++ (x ∷ []))

abbrev put : Option (Unit {0}) → (Writes → Writes) → Letters → Letters
put Option.none f z = (f z.0, z.1)
put (some session) f z = (z.0, f z.1)

abbrev insert_letter : Option (Unit {0}) → DeadLetter → Exec Letters (Unit {0})
insert_letter o d z = if letter_valid d then (ok tt, put o (with_letter d) z) else (err [], z)

abbrev settled : Result (Unit {0}) → Letters → Result (Unit {0}) × Letters
settled (ok u) z = (ok u, ((z.0.0 ++ z.1.0, z.0.1 ++ z.1.1), ([], [])))
settled (err e) z = (err e, (z.0, ([], [])))

abbrev begun : Letters → Letters
begun z = (z.0, ([], []))

abbrev transaction : Unit {0} → Exec Letters (Unit {0}) → Exec Letters (Unit {0})
transaction s m z = settled (m (begun z)).0 (m (begun z)).1

pub insert_letter-ok :
    (d : DeadLetter) (z : Letters)
    → (insert_letter Option.none d z).0 ≡ ok tt
    → ((insert_letter Option.none d z).1.0.0 ≡ z.0.0 ++ (d ∷ []))
      × ((insert_letter Option.none d z).1.0.1 ≡ z.0.1)
insert_letter-ok d z h = elim (Bool-cases (letter_valid d)) [
  | inl v ↦ rw v (refl, refl)
  | inr v ↦ ground arith
]

pub stage_letter-same :
    (d : DeadLetter) (z : Letters)
    → ((insert_letter (some tt) d z).1.0.0 ≡ z.0.0) × ((insert_letter (some tt) d z).1.0.1 ≡ z.0.1)
stage_letter-same d z = elim (Bool-cases (letter_valid d)) [
  | inl v ↦ rw v (refl, refl)
  | inr v ↦ rw v (refl, refl)
]

pub stage_letter-ok :
    (d : DeadLetter) (z : Letters)
    → (insert_letter (some tt) d z).0 ≡ ok tt
    → ((insert_letter (some tt) d z).1.1.0 ≡ z.1.0 ++ (d ∷ []))
      × ((insert_letter (some tt) d z).1.1.1 ≡ z.1.1)
stage_letter-ok d z h = elim (Bool-cases (letter_valid d)) [
  | inl v ↦ rw v (refl, refl)
  | inr v ↦ ground arith
]

abbrev IsQuiet : Exec Letters (Unit {0}) → Type 0
IsQuiet m = (y : Letters) → ((m y).1.0.0 ≡ y.0.0) × ((m y).1.0.1 ≡ y.0.1)

pub transaction-ok :
    (m : Exec Letters (Unit {0})) (z : Letters)
    → IsQuiet m
    → (transaction tt m z).0 ≡ ok tt
    → (y : Letters) × (y.1.0 ≡ [])
      × (y.1.1 ≡ [])
      × ((m y).0 ≡ ok tt)
      × ((transaction tt m z).1.0.0 ≡ z.0.0 ++ (m y).1.1.0)
      × ((transaction tt m z).1.0.1 ≡ z.0.1 ++ (m y).1.1.1)
transaction-ok m z quiet h = elim (Result-cases (m (begun z)).0) [
  | inl (e, p) ↦ let no : err e ≡ ok tt = rw p at h in absurd (cc)
  | inr (u, p) ↦
      let (same, same') = quiet (begun z) in
      (begun z, refl, refl, p, rw (p, same) refl, rw (p, same') refl)
]

pub transaction-err :
    (m : Exec Letters (Unit {0})) (z : Letters) (x : List ℕ)
    → IsQuiet m
    → (transaction tt m z).0 ≡ err x
    → ((transaction tt m z).1.0.0 ≡ z.0.0) × ((transaction tt m z).1.0.1 ≡ z.0.1)
transaction-err m z x quiet h = elim (Result-cases (m (begun z)).0) [
  | inr (u, p) ↦ let no : ok u ≡ err x = rw p at h in absurd (cc)
  | inl (e, p) ↦ let (same, same') = quiet (begun z) in (rw (p, same) refl, rw (p, same') refl)
]

abbrev pub memory_letters : LetterStore
memory_letters = record {
  Store = Letters;
  Session = Unit {0};
  letters = λ z. z.0.0;
  outbox = λ z. z.0.1;
  staged_letters = λ s z. z.1.0;
  staged_events = λ s z. z.1.1;
  start_session = λ z. (ok tt, z);
  end_session = λ s z. (ok tt, z);
  insert_letter = insert_letter;
  insert_event = λ o x z. (ok tt, put o (with_event x) z);
  with_transaction = transaction;
  start_session-same = λ z. (refl, refl);
  end_session-same = λ s z. (refl, refl);
  insert_letter-ok = insert_letter-ok;
  insert_event-ok = λ x z h. (refl, refl);
  stage_letter-same = λ s d z. stage_letter-same d z;
  stage_event-same = λ s x z. (refl, refl);
  stage_letter-ok = λ s d z h. stage_letter-ok d z h;
  stage_event-ok = λ s x z h. (refl, refl);
  insert_letter-invalid = λ o d z h. ([], rw h);
  transaction-ok = λ s m z quiet h. transaction-ok m z quiet h;
  transaction-err = λ s m z e quiet h. inl (transaction-err m z e quiet h);
}

abbrev create : Execution → Exec (List Execution) (Unit {0})
create x l = if execution_valid x then (ok tt, l ++ (x ∷ [])) else (err [], l)

pub create-ok :
    (x : Execution) (l : List Execution) → (create x l).0 ≡ ok tt → (create x l).1 ≡ l ++ (x ∷ [])
create-ok x l h = elim (Bool-cases (execution_valid x)) [ inl v ↦ rw v refl | inr v ↦ ground arith ]

abbrev pub memory_audit : ExecutionLog
memory_audit = record {
  Log = List Execution;
  records = λ l. l;
  create = create;
  create-ok = create-ok;
  create-invalid = λ x l h. ([], rw h);
}

abbrev pub memory_keys : KeyStore
memory_keys = record {
  Keys = String → Option String;
  set_ex = λ k v seconds m. (ok tt, λ i. if str_eq k i then some v else m i);
  get = λ k m. (ok (m k), m);
  del = λ k m. (ok tt, λ i. if str_eq k i then Option.none else m i);
}

-- Every reading of the clock is a millisecond after the last.
abbrev pub memory_clock : Clock
memory_clock = record {
  Time = ℕ;
  date_now = λ t. (ok t, t + 1);
  jitter = λ t. (ok 7, t);
  date_now-ok = λ t. (t, refl);
  jitter-ok = λ t. (7, refl, omega arith);
}

abbrev pub memory_broker : MessageBroker
memory_broker = record {
  Net = List Event;
  open_channel = λ n. (ok tt, n);
  assert_exchange = λ exchange n. (ok tt, n);
  assert_queue = λ options n. (ok tt, n);
  bind_queue = λ queue exchange key n. (ok tt, n);
  jitter = λ n. (ok 7, n);
  pause = λ ms n. (ok tt, n);
  send = λ key e n. (ok tt, e ∷ n);
}

abbrev pub memory_services : Services
memory_services = record {
  jobs = memory_jobs;
  sets = memory_sets;
  letters = memory_letters;
  audit = memory_audit;
  keys = memory_keys;
  broker = memory_broker;
  clock = memory_clock;
  Remote = ℕ;
}

-- A process whose handlers count their calls.
abbrev pub worker : Process memory_services
worker = record {
  handlers = λ t. some (λ j n. (ok tt, n + 1));
  instance_id = "scheduler-1";
  heartbeat_json = λ i n. i;
  stack_of = λ e. some e;
  no_handler = λ t. [];
}

abbrev pub payout : Job
payout = record {
  job_id = "a";
  job_type = payout_batch;
  tenant_id = "t";
  status = pending;
  priority = 1;
  scheduled_at = 5;
  next_run_at = 5;
  cron_expression = Option.none;
  attempts = 0;
  max_attempts = 3;
  last_attempt_at = Option.none;
  last_error = Option.none;
  started_at = Option.none;
  completed_at = Option.none;
  payload = [];
  version = 0;
  expires_at = Option.none;
}

abbrev pub stored : String → Option Job
stored i = if str_eq "a" i then some payout else Option.none

abbrev pub world : World memory_services
world = record {
  jobs = stored;
  sets = λ k. [];
  letters = no_letters;
  audit = [];
  keys = λ k. Option.none;
  bus = record { channel = false; net = [] };
  time = 100;
  remote = 0;
}
