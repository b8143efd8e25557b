-- ===== src/Services/Runtime.antt =====
-- What the components take from Redis keys and from the JavaScript runtime.
use hyperscale_job_scheduler.Base.{ℕ, ◌<◌, String, Option, ◌≡◌}
use hyperscale_job_scheduler.Exec.{Exec, ok}

-- SET key value EX seconds, GET and DEL of plain keys.
pub record KeyStore : Type 1 where
  pub Keys : Type 0
  pub set_ex : String → String → ℕ → Exec Keys (Unit {0})
  pub get : String → Exec Keys (Option String)
  pub del : String → Exec Keys (Unit {0})

-- Date.now(), and the whole milliseconds of `Math.random() * 1_000`.
pub record Clock : Type 1 where
  pub Time : Type 0
  pub date_now : Exec Time ℕ
  pub jitter : Exec Time ℕ
  pub date_now-ok : (t : Time) → (n : ℕ) × ((date_now t).0 ≡ ok n)
  pub jitter-ok : (t : Time) → (n : ℕ) × ((jitter t).0 ≡ ok n) × (n < 1000)
