-- ===== src/Startup/Process.antt =====
-- The process around them: main of src/server.ts, and the hooks of src/shutdown.ts on the signals, on
-- an uncaught exception and on an unhandled rejection.
use hyperscale_job_scheduler.Base.{
  ℕ, zero, suc, ◌+◌, ◌≤◌, Bool, true, false, Option, none, some, ◌≡◌, refl, ◌⊎◌, inl, inr,
}
use hyperscale_job_scheduler.Exec.{Result, ok, err, Result-cases}
use hyperscale_job_scheduler.Watchdog.{HeartbeatWatchdog}
use hyperscale_job_scheduler.Election.{Environment, Node}
use hyperscale_job_scheduler.Election.Leadership.{IsConsistent, waiting}
use hyperscale_job_scheduler.Startup.{Site, Service, bootstrap_server, shutdown}
use hyperscale_job_scheduler.Startup.Shutdown.{IsSound, IsDown, shutdown-IsDown}

-- Whether the server listens, and the code with which the process ended.
pub record Process (v : Environment) (Net : Type 0) : Type 0 where
  pub service : Service v Net
  pub listening : Bool
  pub exit_code : Option ℕ

module _ (v : Environment) (site : Site) where
  abbrev booted : Result (Unit {0}) × Service v site.Net → Process v site.Net
  booted (ok u, w) = record { service = w; listening = true; exit_code = none }
  booted (err e, w) = record { service = w; listening = false; exit_code = some 1 }

  unfoldable pub main :
      v.Queue → v.locks.Net → v.keys.Keys → v.clock.Time → Service v site.Net → Process v site.Net
  main queue locks keys time w = booted (bootstrap_server v site queue locks keys time w)

  module _ (now : Node v → ℕ) (pause : Node v → Node v) where
    abbrev hooked :
        (Process v site.Net → Option (Process v site.Net))
        → Option (Result (Unit {0}) × Service v site.Net)
        → Option (Process v site.Net)
    hooked again none = none
    hooked again (some (ok u, w)) =
        some (record { service = w; listening = false; exit_code = some 0 })
    hooked again (some (err e, w)) =
        again (record { service = w; listening = false; exit_code = none })

    -- A hook calls `shutdown`, whose first call is `server.close()`. Its rejection is unhandled, so that
    -- the hook for these calls it again: here so many times at most.
    unfoldable pub on_signal : ℕ → Process v site.Net → Option (Process v site.Net)
    unfolding shutdown
    on_signal zero p = some p
    on_signal (suc tries) p =
        let again = on_signal tries in hooked again (shutdown v site now pause p.service)

    -- A signal ends: after it the server does not listen, no timer is set and the instance is a follower
    -- that holds no lock and does not poll, and the process has ended with code 0 or every one of its
    -- tries threw. A pause takes 500 ms at least and keeps the instance consistent.
    on_signal-IsDown :
        ((m : Node v) → now m + 500 ≤ now (pause m))
        → ((m : Node v) → IsSound v m → IsSound v (pause m))
        → (tries : ℕ) (p : Process v site.Net) (n : Node v) (d : HeartbeatWatchdog)
        → p.service.node ≡ some n
        → p.service.watchdog ≡ some d
        → IsConsistent n
        → (q : Process v site.Net) × (on_signal (suc tries) p ≡ some q)
          × (q.listening ≡ false)
          × ((q.exit_code ≡ some 0) ⊎ (q.exit_code ≡ none))
          × IsDown v site q.service
    unfolding on_signal IsConsistent
    on_signal-IsDown takes keeps zero p n d here guarded c =
        let (r, w, e, down) =
          shutdown-IsDown v site now pause p.service n d takes keeps here guarded c in
        elim (Result-cases r) [
          | inr (u, f) ↦ (
            record { service = w; listening = false; exit_code = some 0 },
            rw (e, f) refl,
            refl,
            inl refl,
            down,
          )
          | inl (m, f) ↦ (
            record { service = w; listening = false; exit_code = none },
            rw (e, f) refl,
            refl,
            inr refl,
            down,
          )
        ]
    on_signal-IsDown takes keeps (suc tries) p n d here guarded c =
        let (r, w, e, down) =
          shutdown-IsDown v site now pause p.service n d takes keeps here guarded c in
        elim (Result-cases r) [
          | inr (u, f) ↦ (
            record { service = w; listening = false; exit_code = some 0 },
            rw (e, f) refl,
            refl,
            inl refl,
            down,
          )
          | inl (m, f) ↦
              let p' : Process v site.Net = record {
                service = w;
                listening = false;
                exit_code = none;
              } in
              let (q, ends, closed, code, quiet) =
                on_signal-IsDown takes keeps tries p' down.last
                  (record { running = false; timer = false }) down.node down.watchdog
                  (rw (down.follows, down.unlocked, down.idle) waiting) in
              (q, rw (e, f) ends, closed, code, quiet)
        ]
