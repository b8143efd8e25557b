-- ===== src/Examples/Recoveries.antt =====
-- A tick of the watchdog over the in-memory services, with a job that was left running.
use hyperscale_job_scheduler.Base.{some, none, ◌≡◌, refl, str_eq, if◌then◌else◌, arith}
use hyperscale_job_scheduler.Exec.{ok}
use hyperscale_job_scheduler.Types.{Job, pending, running}
use hyperscale_job_scheduler.Jobs.Repository.{reset_stale_jobs}
use hyperscale_job_scheduler.Services.{World}
use hyperscale_job_scheduler.Watchdog.{tick}
use hyperscale_job_scheduler.Watchdog.Recovery.{tick_recovers}
use hyperscale_job_scheduler.Examples.MemoryServices.{memory_services, world, payout}

abbrev left_running : Job
left_running = record payout { status = running; started_at = some 10; version = 1; attempts = 1 }

abbrev later : World memory_services
later = record world { jobs = λ i. if str_eq "a" i then some left_running else none; time = 400000 }

reset_returns : (reset_stale_jobs memory_services.jobs 300000 400000 later.jobs).0 ≡ ok 0
unfolding reset_stale_jobs
reset_returns = refl

tick_recovers_example :
    (memory_services.jobs.doc (tick memory_services later).1.jobs "a"
      ≡ some (record left_running { status = pending; started_at = none }))
    × ((tick memory_services later).1.sets ≡ later.sets)
    × ((tick memory_services later).0 ≡ ok tt)
tick_recovers_example =
    tick_recovers memory_services later 400000 0 10 "a" left_running refl reset_returns refl refl
      refl (omega arith)
