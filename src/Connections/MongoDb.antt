-- ===== src/Connections/MongoDb.antt =====
-- connectMongoDB of src/infra/config/database.ts. The driver's calls and the text of the error are
-- parameters.
pub mod Attempts
use hyperscale_job_scheduler.Base.{ℕ, zero, suc, ◌+◌, ◌-◌, ◌*◌, ◌^◌, ◌==◌, if◌then◌else◌}
use hyperscale_job_scheduler.Exec.{Exec, Message, ok, pure, throw, try_catch, ◌>>=◌, ◌>>◌}

pub record MongoDriver : Type 1 where
  pub Net : Type 0
  pub connect : Exec Net (Unit {0})
  pub close : Exec Net (Unit {0})
  -- `MongoDB connection failed after ${MAX_RETRIES} attempts: ...`
  pub failure_text : Message → Message

-- The network, and the milliseconds that were waited.
pub record Dial (Net : Type 0) : Type 0 where
  pub net : Net
  pub waited_ms : ℕ

abbrev pub max_retries : ℕ
max_retries = 5

abbrev pub base_retry_delay_ms : ℕ
base_retry_delay_ms = 2000

unfoldable pub wait_before_retry : {Net : Type 0} → ℕ → Exec (Dial Net) (Unit {0})
wait_before_retry attempt d =
    (ok tt, record d { waited_ms = d.waited_ms + base_retry_delay_ms * 2 ^ attempt })

module _ (m : MongoDriver) where
  open m use {Net, connect, close, failure_text}

  abbrev pub on_net : Exec Net (Unit {0}) → Exec (Dial Net) (Unit {0})
  on_net f d = let (r, n) = f d.net in (r, record d { net = n })

  -- The body of the loop for this attempt and, after it, for the number of attempts that is left.
  unfoldable pub connect_from : ℕ → ℕ → Exec (Dial Net) (Unit {0})
  unfolding wait_before_retry try_catch ◌>>=◌
  connect_from zero attempt = pure tt
  connect_from (suc left) attempt =
      let again = connect_from left (attempt + 1) in
      try_catch (on_net connect) (λ e.
        if attempt == max_retries - 1
        then throw (failure_text e)
        else (do wait_before_retry attempt; again))

  unfoldable pub connect_mongodb : Exec (Dial Net) (Unit {0})
  unfolding connect_from
  connect_mongodb = connect_from max_retries 0

  unfoldable pub disconnect_mongodb : Exec (Dial Net) (Unit {0})
  disconnect_mongodb = on_net close
