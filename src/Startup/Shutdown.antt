-- ===== src/Startup/Shutdown.antt =====
-- What a shutdown leaves.
use hyperscale_job_scheduler.Base.{
  ℕ, ◌+◌, ◌≤◌, Bool, false, inl, inr, Option, none, some, ◌≡◌, refl, ap,
}
use hyperscale_job_scheduler.Exec.{Exec, Result}
use hyperscale_job_scheduler.Exec.Keeps.{Keeps, keeping}
use hyperscale_job_scheduler.Poll
use hyperscale_job_scheduler.Poll.{PollLoop}
use hyperscale_job_scheduler.Poll.Drain.{drain, drain_ends, drain_kept}
use hyperscale_job_scheduler.Watchdog
use hyperscale_job_scheduler.Watchdog.{HeartbeatWatchdog}
use hyperscale_job_scheduler.OutboxPoller.Timer.{PollerTimer, stop_outbox_poller}
use hyperscale_job_scheduler.Election
use hyperscale_job_scheduler.Election.{Environment, Node, follower, is_leader}
use hyperscale_job_scheduler.Election.Timing.{IsTimed, stop-IsTimed}
use hyperscale_job_scheduler.Election.Leadership.{Stance, IsConsistent, stop_steps_down}
use hyperscale_job_scheduler.Startup.{
  Site, Service, on_net, seen, drained, disconnect_all, shutdown, drain_node,
}

module _ (v : Environment) where
  -- What the callbacks of the process keep of the instance: Election.Leadership and Election.Timing.
  abbrev pub IsSound : Node v → Type 0
  IsSound n = IsConsistent n × IsTimed v n

module _ (v : Environment) (site : Site) where
  -- The timers of the outbox poller, the watchdog, the election and the poll loop are cleared; the
  -- instance holds no lock and does not poll.
  pub record IsDown (w : Service v site.Net) : Type 0 where
    pub last : Node v
    pub outbox : w.outbox ≡ record { running = false; timer = false }
    pub watchdog : w.watchdog ≡ some (record { running = false; timer = false })
    pub node : w.node ≡ some last
    pub follows : last.state ≡ follower
    pub unlocked : last.lock ≡ none
    pub idle : last.poll_loop.running ≡ false
    pub untimed : last.poll_loop.timer ≡ false
    pub unwatched : last.watch_timer ≡ false

  -- The variables of the process are these.
  HasVariables :
      PollerTimer → Option HeartbeatWatchdog → Option (Node v) → Service v site.Net → Type 0
  HasVariables o d n w = (w.outbox ≡ o) × ((w.watchdog ≡ d) × (w.node ≡ n))

module _ (v : Environment) (site : Site) where
  module _ (o : PollerTimer) (d : Option HeartbeatWatchdog) (n : Option (Node v)) where
    Keeps-on_net :
        (m : Exec site.Net (Unit {0})) → Keeps (HasVariables v site o d n) (on_net v site m)
    unfolding HasVariables
    Keeps-on_net m = record { holds = λ w h. h }

    Keeps-disconnect_all : Keeps (HasVariables v site o d n) (disconnect_all v site)
    unfolding disconnect_all
    Keeps-disconnect_all = search (keeping, Keeps-on_net)

  stopped-IsConsistent :
      (n : Node v) → IsConsistent n → IsConsistent (record n { poll_loop = Poll.stop n.poll_loop })
  unfolding IsConsistent Poll.stop
  stopped-IsConsistent n h = silent h
    where
      silent :
          {L : Type 0} {state : Election.LeaderState} {lock : Option L} {polls : Bool}
          → Stance state lock polls
          → Stance state lock false
      silent (Stance.leading l polls) = Stance.leading l false
      silent Stance.waiting = Stance.waiting

  module _ (now : Node v → ℕ) (pause : Node v → Node v) where
    drain_node_lem :
        (n e : Node v)
        → drain (seen v site now pause) pause 62 30000 n ≡ some e
        → drain_node v site now pause (some n) ≡ some (some e)
    unfolding drain_node
    drain_node_lem n e h = ap (drained v site now pause) h

    pub shutdown-IsDown :
        (w : Service v site.Net) (n : Node v) (d : HeartbeatWatchdog)
        → ((m : Node v) → now m + 500 ≤ now (pause m))
        → ((m : Node v) → IsSound v m → IsSound v (pause m))
        → w.node ≡ some n
        → w.watchdog ≡ some d
        → IsConsistent n
        → (r : Result (Unit {0})) × (w' : Service v site.Net) × (shutdown v site now pause w
            ≡ some (r, w'))
          × IsDown v site w'
    unfolding shutdown stop_outbox_poller Watchdog.stop HasVariables
    shutdown-IsDown w n d takes keeps here guarded c =
        let n' : Node v = record n { poll_loop = Poll.stop n.poll_loop } in
        let (e, (ends, _)) = drain_ends (seen v site now pause) pause takes n' in
        let (consistent, timed) =
          drain_kept (seen v site now pause) pause (IsSound v) 62 30000 n' e keeps ends
            (stopped-IsConsistent n c, inr refl) in
        let (follows, unlocked, idle, unwatched) = stop_steps_down v e consistent in
        let untimed : (Election.stop v e).1.poll_loop.timer ≡ false =
          elim (stop-IsTimed v e timed) [ inl runs ↦ absurd (cc) | inr off ↦ off ] in
        let cleared : Service v site.Net = record w {
          outbox = record { running = false; timer = false };
          watchdog = some (record { running = false; timer = false });
          node = some (Election.stop v e).1;
        } in
        let (outbox, (watchdog, node)) =
          (Keeps-disconnect_all cleared.outbox cleared.watchdog cleared.node).holds cleared
            (refl, (refl, refl)) in
        (
          (disconnect_all v site cleared).0,
          (disconnect_all v site cleared).1,
          rw (here, guarded, drain_node_lem n' e ends) refl,
          record {
            last = (Election.stop v e).1;
            outbox = outbox;
            watchdog = watchdog;
            node = node;
            follows = follows;
            unlocked = unlocked;
            idle = idle;
            untimed = untimed;
            unwatched = unwatched;
          },
        )
