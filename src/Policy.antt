-- ===== src/Policy.antt =====
-- Retry policies (durable-workflows/src/policy.rs): the bounds that a policy is checked against and
-- the delay before an attempt. `u64`, `u32` and `u8` values are natural numbers; the code multiplies
-- in `u128` and `i128`, wide enough for every `u64` and `u8`, so only its own saturations and clamps
-- are written out. A delay is a whole number of seconds.
pub mod Jitter
pub mod Delay
use durable_workflows.Base.{
  ℕ, ◌+◌, ◌-◌, ◌*◌, ◌/◌, ◌%◌, ◌^◌, Bool, Option, none, some, min, ltb, ◌==◌, if◌then◌else◌,
}
use durable_workflows.Base.Int.{ℤ, pos, pos_part, ◌+ℤ◌, ◌-ℤ◌, ◌*ℤ◌, tdiv, clamp}
use durable_workflows.Base.Outcome.{Result, ok, err, DurableError, invalid_definition, ◌>>=◌}

abbrev pub u64_max : ℕ
u64_max = 18_446_744_073_709_551_615

-- `(i64::MAX / 2_000) as u64`.
abbrev pub max_retry_delay_secs : ℕ
max_retry_delay_secs = 9_223_372_036_854_775_807 / 2_000

-- The first two bytes of the seed's SHA-256 digest, in little-endian order, modulo 101. The digest
-- is the library's, so its two bytes are the arguments.
unfoldable pub deterministic_jitter_percentile : ℕ → ℕ → ℕ
deterministic_jitter_percentile byte0 byte1 = (byte0 + 256 * byte1) % 101

pub data BackoffPolicy : Type 0 where
  fixed_delay : (delay_secs : ℕ) → BackoffPolicy
  exponential_delay : (initial_secs max_secs jitter_percent : ℕ) → BackoffPolicy

pub record RetryPolicy : Type 0 where
  pub backoff : BackoffPolicy

pub data BoundViolation : Type 0 where
  fixed_zero fixed_too_long initial_zero max_below_initial max_too_long jitter_over_100 :
      BoundViolation

pub data Checked : Type 0 where
  passed : BackoffPolicy → Checked
  violated : BoundViolation → Checked

unfoldable pub check : BackoffPolicy → Checked
check (fixed_delay delay_secs) =
    if delay_secs == 0
    then violated fixed_zero
    else if ltb max_retry_delay_secs delay_secs
    then violated fixed_too_long
    else passed (fixed_delay delay_secs)
check (exponential_delay initial_secs max_secs jitter_percent) =
    if initial_secs == 0
    then violated initial_zero
    else if ltb max_secs initial_secs
    then violated max_below_initial
    else if ltb max_retry_delay_secs max_secs
    then violated max_too_long
    else if ltb 100 jitter_percent
    then violated jitter_over_100
    else passed (exponential_delay initial_secs max_secs jitter_percent)

-- Every violation is an `InvalidDefinition`; the messages are left out.
abbrev pub into_error : BoundViolation → DurableError
into_error violation = invalid_definition

abbrev or_error : Checked → Result RetryPolicy
or_error (passed backoff) = ok (record { backoff = backoff })
or_error (violated violation) = err (into_error violation)

-- `None` stands for the panic.
abbrev or_panic : Checked → Option RetryPolicy
or_panic (passed backoff) = some (record { backoff = backoff })
or_panic (violated violation) = none

unfoldable pub validated : BackoffPolicy → Result RetryPolicy
unfolding check
validated backoff = or_error (check backoff)

unfoldable pub from_checked : BackoffPolicy → Option RetryPolicy
unfolding check
from_checked backoff = or_panic (check backoff)

unfoldable pub fixed : ℕ → Result RetryPolicy
unfolding validated
fixed delay_secs = validated (fixed_delay delay_secs)

unfoldable pub exponential : ℕ → ℕ → ℕ → Result RetryPolicy
unfolding validated
exponential initial_secs max_secs jitter_percent =
    validated (exponential_delay initial_secs max_secs jitter_percent)

-- `u64::saturating_mul` and `1_u64.checked_shl(exponent)`.
abbrev pub saturating_mul : ℕ → ℕ → ℕ
saturating_mul a b = min (a * b) u64_max

abbrev pub shl_one : ℕ → Option ℕ
shl_one exponent = if ltb exponent 64 then some (2 ^ exponent % 2 ^ 64) else none

abbrev pub unwrap_or : Option ℕ → ℕ → ℕ
unwrap_or none d = d
unwrap_or (some a) d = a

unfoldable pub apply_jitter : ℕ → ℕ → ℕ → ℕ
unfolding ◌+ℤ◌ ◌-ℤ◌ ◌*ℤ◌ tdiv
apply_jitter base jitter_percent percentile =
    let spread : ℤ = pos (base * jitter_percent / 100) in
    let centered_percentile : ℤ = pos (percentile * 2) -ℤ pos 100 in
    let delta : ℤ = tdiv (spread *ℤ centered_percentile) 100 in
    pos_part (clamp (pos 0) (pos u64_max) (pos base +ℤ delta))

-- The exponential base delay of an attempt, before jitter.
unfoldable pub base_delay : ℕ → ℕ → ℕ → ℕ
base_delay initial_secs max_secs attempt =
    let exponent = min (attempt - 1) 63 in
    let multiplier = unwrap_or (shl_one exponent) u64_max in
    min (saturating_mul initial_secs multiplier) max_secs

unfoldable pub seconds_for : BackoffPolicy → ℕ → ℕ → ℕ
unfolding apply_jitter base_delay
seconds_for (fixed_delay delay_secs) attempt percentile = delay_secs
seconds_for (exponential_delay initial_secs max_secs jitter_percent) attempt percentile =
    apply_jitter (base_delay initial_secs max_secs attempt) jitter_percent percentile

unfoldable pub delay_for_attempt : RetryPolicy → ℕ → ℕ → Result ℕ
unfolding seconds_for
delay_for_attempt policy attempt jitter_percentile =
    if attempt == 0
    then err invalid_definition
    else if ltb 100 jitter_percentile
    then err invalid_definition
    else ok (seconds_for policy.backoff attempt jitter_percentile)
