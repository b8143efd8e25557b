-- ===== src/Examples/Elections.antt =====
-- One instance of the election over an in-memory lock.
use hyperscale_job_scheduler.Base.{Bool, true, false, none, some, [], ◌∷◌, ◌≡◌, ◌⊎◌}
use hyperscale_job_scheduler.Exec.{Message, ok, err}
use hyperscale_job_scheduler.Election.{Environment, LockService, Node, leader, follower, watch_tick}
use hyperscale_job_scheduler.Election.Leadership.{
  started, ticked, stopped, IsConsistent, waiting, leading, perform_all, perform_all-IsConsistent,
}
use hyperscale_job_scheduler.Election.Watching.{watch_tick_rearms}
use hyperscale_job_scheduler.Examples.MemoryServices.{memory_keys, memory_clock}

-- The lock is free when the state says so; only the holder extends it.
abbrev pub memory_locks : LockService
memory_locks = record {
  Net = Bool;
  Lock = Unit {0};
  acquire_lock = λ free. ((elim free [ true ↦ ok tt | false ↦ err [] ]), false);
  extend_lock = λ l free. (ok l, free);
  release_lock = λ l free. (ok tt, true);
}

abbrev pub environment : Environment
environment = record {
  locks = memory_locks;
  keys = memory_keys;
  clock = memory_clock;
  to_text = λ n. "now";
  parse_int = λ s. none;
  Queue = Unit {0};
}

abbrev pub fresh : Node environment
fresh = record {
  state = follower;
  lock = none;
  watch_timer = false;
  poll_loop = record {
    running = false;
    active_jobs = 0;
    timer = false;
    queue = tt;
    in_flight = [];
  };
  net = true;
  keys = λ k. none;
  time = 100;
}

fresh-IsConsistent : IsConsistent fresh
unfolding IsConsistent
fresh-IsConsistent = waiting

abbrev pub leading_node : Node environment
leading_node = record fresh {
  state = leader;
  lock = some tt;
  watch_timer = true;
  poll_loop = record { running = true; active_jobs = 0; timer = true; queue = tt; in_flight = [] };
  net = false;
}

leading_node-IsConsistent : IsConsistent leading_node
unfolding IsConsistent
leading_node-IsConsistent = leading tt true

perform_all-IsConsistent_example :
    IsConsistent (perform_all environment (started ∷ ticked ∷ ticked ∷ stopped ∷ []) fresh)
perform_all-IsConsistent_example =
    perform_all-IsConsistent environment (started ∷ ticked ∷ ticked ∷ stopped ∷ []) fresh
      fresh-IsConsistent

watch_tick_rearms_example :
    (((watch_tick environment leading_node).0 ≡ ok tt)
      × ((watch_tick environment leading_node).1.watch_timer ≡ true))
    ⊎ ((e : Message) × (((watch_tick environment leading_node).0 ≡ err e)
          × ((watch_tick environment leading_node).1.watch_timer ≡ false)))
watch_tick_rearms_example = watch_tick_rearms environment leading_node
