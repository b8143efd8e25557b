-- ===== src/Election/Interrupted.antt =====
-- A call of stop while a tick of the watch timer is under way: src/domains/election/leader-election.ts.
use hyperscale_job_scheduler.Base.{true, false, ◌≡◌, ◌⊎◌, refl, Bool-cases, inl, inr, if◌then◌else◌}
use hyperscale_job_scheduler.Exec.{Exec, Message, ok, err, ◌>>=◌, ◌>>◌}
use hyperscale_job_scheduler.Election.{
  Environment, Node, is_leader, acquire, promote, set_state, follower, write_heartbeat, on_promoted,
  on_demoted, schedule_watch, lead, release, follow, stop,
}
use hyperscale_job_scheduler.Election.Watching.{
  Idle, Ended, Rearms, idling, Keeps-acquire, Keeps-promote, Keeps-write_heartbeat, Keeps-release,
  Keeps-demote, Rearms-later, Rearms-last, Rearms-lead, Rearms-follow,
}

-- The await at which the tick is: for the heartbeat, the lock, the first heartbeat of a leader, the
-- extension, the release, or a later heartbeat.
pub data Awaiting : Type 0 where
  reading acquiring promoting extending releasing writing : Awaiting

module _ (v : Environment) where
  -- What the tick does from this await on.
  unfoldable pub resume : Awaiting → Exec (Node v) (Unit {0})
  unfolding ◌>>=◌ follow acquire promote lead release write_heartbeat on_promoted on_demoted
      schedule_watch
  resume reading = follow v
  resume acquiring = do
    acquired ← acquire v
    if acquired then promote v else set_state v follower
    schedule_watch v
  resume promoting = do write_heartbeat v; on_promoted v; schedule_watch v
  resume extending = lead v
  resume releasing = do release v; on_demoted v; schedule_watch v
  resume writing = do write_heartbeat v; schedule_watch v

module _ (v : Environment) where
  Rearms-resume : (a : Awaiting) → Rearms v (resume v a)
  unfolding resume
  Rearms-resume reading = Rearms-follow v
  Rearms-resume acquiring = search (idling, Rearms-later, Rearms-last, Keeps-acquire, Keeps-promote)
  Rearms-resume promoting = search (idling, Rearms-later, Rearms-last, Keeps-write_heartbeat)
  Rearms-resume extending = Rearms-lead v
  Rearms-resume releasing = search (idling, Rearms-later, Rearms-last, Keeps-release)
  Rearms-resume writing = search (idling, Rearms-later, Rearms-last, Keeps-write_heartbeat)

  stop-Idle : (n : Node v) → Idle v (stop v n).1
  unfolding stop Idle
  stop-Idle n = elim (Bool-cases (is_leader n.state)) [
    | inl e ↦ rw e ((Keeps-demote v).holds (record n { watch_timer = false }) refl)
    | inr e ↦ rw e refl
  ]

  -- A tick of the watch timer that was under way when `stop` ran sets the timer again when it goes on,
  -- unless it throws: the stopped instance goes on watching.
  stop-resume :
      (a : Awaiting) (n : Node v)
      → let (r, n') = resume v a (stop v n).1 in
        ((r ≡ ok tt) × (n'.watch_timer ≡ true))
        ⊎ ((e : Message) × ((r ≡ err e) × (n'.watch_timer ≡ false)))
  unfolding Ended
  stop-resume a n = (Rearms-resume a).ends (stop v n).1 (stop-Idle n)
