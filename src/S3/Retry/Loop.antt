-- ===== src/S3/Retry/Loop.antt =====
-- internal/s3/retry.go: `RetryWithDelay`.
pub mod Ends
use r.Prelude.{ℕ, zero, suc, Option, none, some, if◌then◌else◌, ◌||◌, not}
use r.Prelude.Int.{ℤ, to_ℕ, reaches}
use r.S3.Retry.{RetryPolicy, Failure, is_transient, backoff}

-- The context, the operation and the wait that the loop is given. They share one world; `none` is no
-- error.
pub record Calls (World : Type 0) : Type 0 where
  pub context_error : World → Option Failure
  pub operation : World → World × Option Failure
  pub wait : ℤ → World → World × Option Failure

-- A loop that has ended: its world and its error. `none` is a loop that ran out of fuel.
abbrev pub Ended : Type 0 → Type 0
Ended World = Option (World × Option Failure)

module _ {World : Type 0} (p : RetryPolicy) (calls : Calls World) where
  unfoldable pub after_wait : (World → Ended World) → World × Option Failure → Ended World
  after_wait next (w, some e) = some (w, some e)
  after_wait next (w, none) = next w

  unfoldable pub after_operation : ℕ → (World → Ended World) → World × Option Failure → Ended World
  after_operation attempt next (w, none) = some (w, none)
  after_operation attempt next (w, some e) =
      if not (is_transient p e) || reaches attempt p.max_retries
      then some (w, some e)
      else after_wait next (calls.wait (backoff p attempt) w)

  unfoldable pub attempt_once : ℕ → (World → Ended World) → World → Option Failure → Ended World
  attempt_once attempt next w (some e) = some (w, some e)
  attempt_once attempt next w none = after_operation attempt next (calls.operation w)

  unfoldable pub retry_from : ℕ → ℕ → World → Ended World
  retry_from zero attempt w = none
  retry_from (suc fuel) attempt w =
      attempt_once attempt (retry_from fuel (suc attempt)) w (calls.context_error w)

  -- One turn for each attempt from 0 to `MaxRetries`.
  unfoldable pub retry_with_delay : World → Ended World
  retry_with_delay w = retry_from (suc (to_ℕ p.max_retries)) zero w
