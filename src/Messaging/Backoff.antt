-- ===== src/Messaging/Backoff.antt =====
-- libs/py-common/devblog_common/backoff.py, with `base` 1.0 and `max_delay` 30.0, which every caller
-- takes. A delay is in seconds without the jitter and in nanoseconds with it; what a float rounds off
-- is not modelled.
use myblog.Kernel.Exec.{Exec}
use myblog.Base.{ℕ, if◌then◌else◌, ltb, min, ◌^◌, ◌+◌, ◌*◌, ◌≤◌, arith, zero, suc}
use native.Mathlib.Nat.{mul-le-mul_right}
use myblog.Kernel.Errors.{ok, err, overflow_error}

-- The integers that a Python float can hold are less than `2 ** 1024`.
abbrev pub float_exponents : ℕ
float_exponents = 1024

abbrev pub max_delay : ℕ
max_delay = 30

-- What `random.uniform(0.8, 1.2)` draws, in billionths
pub record IsJitter (factor : ℕ) : Type 0 where
  pub least : 800000000 ≤ factor
  pub most : factor ≤ 1200000000

abbrev pub base_delay : ℕ → ℕ
base_delay attempt = min max_delay (2 ^ attempt)

-- `next_delay`, with the factor that is drawn: the state is `attempt`. `self._base *
-- (2**self.attempt)` makes a float of the power, which raises OverflowError when it is too large;
-- `attempt` is counted after that.
abbrev pub next_delay : ℕ → Exec ℕ ℕ
next_delay factor attempt =
    if ltb attempt float_exponents
    then (ok (base_delay attempt * factor), attempt + 1)
    else (err overflow_error, attempt)

-- `reset`
abbrev pub reset : ℕ → ℕ
reset attempt = 0

power-pos : (a : ℕ) → 1 ≤ 2 ^ a
power-pos zero = omega arith
power-pos (suc a) = let h = power-pos a in omega (arith, h)

scaled : (b f : ℕ) → IsJitter f → 1 ≤ b → b ≤ 30 → (800000000 ≤ b * f) × (b * f ≤ 36000000000)
scaled b f near some_wait short =
    let below = mul-le-mul_right f some_wait in
    let above = mul-le-mul_right f short in
    let near_least = near.least in
    let near_most = near.most in (omega (arith, below, near_least), omega (arith, above, near_most))

-- A delay is between 0.8 and 36 seconds, whatever the attempt and the jitter.
pub jittered :
    (a f : ℕ) → IsJitter f → (800000000 ≤ base_delay a * f) × (base_delay a * f ≤ 36000000000)
jittered a f near =
    scaled (base_delay a) f near (let h = power-pos a in omega (arith, h)) (omega arith)
