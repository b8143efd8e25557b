-- ===== src/Examples/Connecting.antt =====
-- A database that refuses twice, and the wait for a job that takes two seconds.
use hyperscale_job_scheduler.Base.{
  ℕ, zero, suc, ◌+◌, ◌-◌, ◌≤◌, ◌<◌, [], ◌∷◌, some, false, ltb, if◌then◌else◌, ◌≡◌, ◌⊎◌, arith,
}
use hyperscale_job_scheduler.Exec.{Message, Result, ok, err}
use hyperscale_job_scheduler.Poll.Drain.{Moment, drain, drain_ends}
use hyperscale_job_scheduler.Connections.MongoDb.{MongoDriver, Dial, connect_mongodb}
use hyperscale_job_scheduler.Connections.MongoDb.Attempts.{Failing, waits, connect_mongodb_lem}

-- So many refusals are left.
abbrev pub refusing : ℕ → Result (Unit {0}) × ℕ
refusing zero = (ok tt, 0)
refusing (suc n) = (err [], n)

abbrev pub driver : MongoDriver
driver = record { Net = ℕ; connect = refusing; close = λ n. (ok tt, n); failure_text = λ e. 77 ∷ e }

abbrev pub dial : Dial ℕ
dial = record { net = 2; waited_ms = 0 }

connect_mongodb_example :
    ((k : ℕ) × ((n : ℕ) × ((k ≤ 4)
          × (Failing driver k 2 n
              × (((refusing n).0 ≡ ok tt)
                  × (connect_mongodb driver dial
                      ≡ (ok tt, record { net = (refusing n).1; waited_ms = 0 + waits 0 k })))))))
    ⊎ ((e : Message) × ((n : ℕ) × (Failing driver 4 2 n
            × (((refusing n).0 ≡ err e)
                × (connect_mongodb driver dial
                    ≡ (err (77 ∷ e), record { net = (refusing n).1; waited_ms = 0 + 30000 }))))))
connect_mongodb_example = connect_mongodb_lem driver dial

-- A pause of half a second, in which the job is done once two seconds are over.
abbrev pause : Moment (Unit {0}) → Moment (Unit {0})
pause m = record {
  loop = record m.loop { active_jobs = if ltb m.now 2000 then m.loop.active_jobs else 0 };
  now = m.now + 500;
}

abbrev busy : Moment (Unit {0})
busy = record {
  loop = record { running = false; active_jobs = 1; timer = false; queue = tt; in_flight = [] };
  now = 0;
}

drain_ends_example :
    (e : Moment (Unit {0})) × ((drain (λ m. m) pause 62 30000 busy ≡ some e)
      × ((e.loop.active_jobs ≡ 0) ⊎ (30000 < e.now - 0)))
drain_ends_example = drain_ends (λ m. m) pause (λ m. omega arith) busy
