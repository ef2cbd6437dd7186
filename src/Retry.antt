-- ===== src/Retry.antt =====
-- engine/retry.py: the delay before the next attempt, and whether there is one.
pub mod Bounds
use nutanix_hack.Prelude.{true, ℕ, ◌-◌, ◌*◌, ◌^◌, min, Bool, Option, none, some, or_else, ltb}
use nutanix_hack.Prelude.Int.{ℤ, pos, pos_part, ltb_ℤ, min_ℤ, max_ℤ, scale}
use nutanix_hack.Spec.{Backoff, exponential, linear, fixed, RetryConfig}

abbrev pub default_max_attempts : ℤ
default_max_attempts = pos 1

abbrev pub default_base_ms : ℤ
default_base_ms = pos 500

abbrev pub default_max_ms : ℤ
default_max_ms = pos 60000

-- An absent block; `{}` reads the same defaults.
abbrev pub no_retry : RetryConfig
no_retry = record {
  max_attempts = none;
  backoff = none;
  base_ms = none;
  max_ms = none;
  max_is_int = true;
  delays_are_ints = true;
}

-- `max_attempts(step)`, of the step's `retry` block.
unfoldable pub max_attempts : Option RetryConfig → ℤ
max_attempts none = default_max_attempts
max_attempts (some retry) = max_ℤ (pos 1) (or_else retry.max_attempts default_max_attempts)

-- `attempt - 1` is taken of attempts, which count from 1; for 0 the source would raise 2 to -1.
unfoldable pub backoff_delay : Backoff → ℤ → ℕ → ℤ
backoff_delay fixed base attempt = base
backoff_delay linear base attempt = scale base attempt
backoff_delay exponential base attempt = scale base (2 ^ min (attempt - 1) 30)

unfoldable pub base_delay_ms : ℕ → Option RetryConfig → ℤ
unfolding backoff_delay
base_delay_ms attempt retry =
    let config = or_else retry no_retry in
    min_ℤ
      (backoff_delay (or_else config.backoff exponential) (or_else config.base_ms default_base_ms)
        attempt)
      (or_else config.max_ms default_max_ms)

-- `attempt < max_attempts(step)`
unfoldable pub should_retry : Option RetryConfig → ℕ → Bool
should_retry retry attempt = ltb_ℤ (pos attempt) (max_attempts retry)
