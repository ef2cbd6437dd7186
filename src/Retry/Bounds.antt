-- ===== src/Retry/Bounds.antt =====
-- About `base_delay_ms` of engine/retry.py.
use native.Mathlib.Nat.{pow-le-pow_right, mul-le-mul_left}
use nutanix_hack.Prelude.{ℕ, ◌-◌, ◌*◌, ◌^◌, ◌≤◌, min, ◌≡◌, refl, Option, or_else, arith}
use nutanix_hack.Prelude.Int.{pos, ◌≤ℤ◌, min_ℤ, scale}
use nutanix_hack.Spec.{Backoff, exponential, linear, fixed, RetryConfig}
use nutanix_hack.Retry.{base_delay_ms, backoff_delay, no_retry, default_base_ms, default_max_ms}

scale-pos : (b k : ℕ) → scale (pos b) k ≡ pos (b * k)
unfolding scale
scale-pos b k = ground arith

-- The backoff of a base that is not negative, in whole milliseconds.
natural_delay : Backoff → ℕ → ℕ → ℕ
natural_delay fixed base attempt = base
natural_delay linear base attempt = base * attempt
natural_delay exponential base attempt = base * 2 ^ min (attempt - 1) 30

backoff_delay-pos :
    (backoff : Backoff) (base attempt : ℕ)
    → backoff_delay backoff (pos base) attempt ≡ pos (natural_delay backoff base attempt)
unfolding backoff_delay natural_delay
backoff_delay-pos fixed base attempt = refl
backoff_delay-pos linear base attempt = scale-pos base attempt
backoff_delay-pos exponential base attempt = scale-pos base (2 ^ min (attempt - 1) 30)

natural_delay_mono :
    (backoff : Backoff) (base i j : ℕ)
    → i ≤ j
    → natural_delay backoff base i ≤ natural_delay backoff base j
unfolding natural_delay
natural_delay_mono fixed base i j h = omega arith
natural_delay_mono linear base i j h = mul-le-mul_left base h
natural_delay_mono exponential base i j h =
    mul-le-mul_left base (pow-le-pow_right (omega arith) (omega (arith, h)))

min_ℤ-pos : (a b : ℕ) → min_ℤ (pos a) (pos b) ≡ pos (min a b)
min_ℤ-pos a b = ground arith

-- The block's backoff, its base and its cap, with the defaults.
abbrev pub BaseIs : Option RetryConfig → ℕ → Type 0
BaseIs retry base = or_else (or_else retry no_retry).base_ms default_base_ms ≡ pos base

abbrev pub CapIs : Option RetryConfig → ℕ → Type 0
CapIs retry cap = or_else (or_else retry no_retry).max_ms default_max_ms ≡ pos cap

base_delay_ms-pos :
    (retry : Option RetryConfig) (base cap attempt : ℕ)
    → BaseIs retry base
    → CapIs retry cap
    → base_delay_ms attempt retry
      ≡ pos (
          min
            (natural_delay (or_else (or_else retry no_retry).backoff exponential) base attempt)
            cap)
unfolding base_delay_ms
base_delay_ms-pos retry base cap attempt b c =
    rw (b, c, backoff_delay-pos (or_else (or_else retry no_retry).backoff exponential) base attempt)
      (min_ℤ-pos _ _)

-- If the base and the cap of a retry block, with the defaults, are not negative, base_delay_ms is
-- between 0 and the cap for each attempt.
pub base_delay_ms_bounded :
    (retry : Option RetryConfig) (base cap attempt : ℕ)
    → BaseIs retry base
    → CapIs retry cap
    → (pos 0 ≤ℤ base_delay_ms attempt retry) × (base_delay_ms attempt retry ≤ℤ pos cap)
base_delay_ms_bounded retry base cap attempt b c =
    rw (base_delay_ms-pos retry base cap attempt b c) (omega arith, omega arith)

-- If the base and the cap of a retry block, with the defaults, are not negative, base_delay_ms of a
-- later attempt is at least that of an earlier one.
pub base_delay_ms_mono :
    (retry : Option RetryConfig) (base cap i j : ℕ)
    → BaseIs retry base
    → CapIs retry cap
    → i ≤ j
    → base_delay_ms i retry ≤ℤ base_delay_ms j retry
base_delay_ms_mono retry base cap i j b c h =
    rw (base_delay_ms-pos retry base cap i b c, base_delay_ms-pos retry base cap j b c)
      (omega (
        arith,
        natural_delay_mono (or_else (or_else retry no_retry).backoff exponential) base i j h,
      ))
