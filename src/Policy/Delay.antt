-- ===== src/Policy/Delay.antt =====
-- The delay before an attempt: total on valid input, within the database's range, and growing.
use native.Mathlib.Nat.{le_trans, pow-le-pow_right}
use durable_workflows.Base.{
  ℕ, ◌-◌, ◌*◌, ◌^◌, ◌≤◌, ◌<◌, ◌≡◌, ◌↔◌, ◌∙◌, ◌⊎◌, inl, inr, refl, arith, min,
}
use durable_workflows.Base.Outcome.{ok}
use durable_workflows.Policy.{
  BackoffPolicy, fixed_delay, exponential_delay, RetryPolicy, passed, check, u64_max,
  max_retry_delay_secs, base_delay, seconds_for, delay_for_attempt, shl_one, unwrap_or,
}
use durable_workflows.Policy.Jitter.{
  apply_jitter_bounds, apply_jitter_midpoint, apply_jitter_mono, scaled-le,
}

-- What `check` lets through.
abbrev pub InBounds : BackoffPolicy → Type 0
InBounds (fixed_delay delay_secs) = (0 < delay_secs) × (delay_secs ≤ max_retry_delay_secs)
InBounds (exponential_delay initial_secs max_secs jitter_percent) =
    (0 < initial_secs)
    × (initial_secs ≤ max_secs)
    × (max_secs ≤ max_retry_delay_secs)
    × (jitter_percent ≤ 100)

-- `check` accepts a policy exactly when it is in bounds.
pub check_iff : (b : BackoffPolicy) → (check b ≡ passed b) ↔ InBounds b
unfolding check
check_iff (fixed_delay d) = ground arith
check_iff (exponential_delay i m j) = ground arith

base_delay-le-max : (i m a : ℕ) → base_delay i m a ≤ m
unfolding base_delay
base_delay-le-max i m a = omega arith

pow_mono : (a b : ℕ) → a ≤ b → 2 ^ a ≤ 2 ^ b
pow_mono a b h = pow-le-pow_right (omega arith) h

shl_small : (e : ℕ) → e ≤ 63 → unwrap_or (shl_one e) u64_max ≡ 2 ^ e
shl_small e h = ground (arith, pow_mono e 63 h)

exponent_min : (n : ℕ) → min n 63 ≤ 63
exponent_min n = omega arith

mul-ge-right : (i p : ℕ) → 0 < i → p ≤ i * p
mul-ge-right i p h = grind arith

capped :
    (i p q m : ℕ)
    → 0 < i
    → 2 ^ 63 ≤ p
    → 2 ^ 63 ≤ q
    → m ≤ max_retry_delay_secs
    → min (min (i * p) u64_max) m ≡ min (i * q) m
capped i p q m hi hp hq hm = omega (arith, mul-ge-right i p hi, mul-ge-right i q hi)

le-cases : (n : ℕ) → (n ≤ 63) ⊎ (63 ≤ n)
le-cases n = omega arith

-- The saturations never show: the base delay is the doubled initial delay, up to the maximum.
pub base_delay_closed :
    (i m a : ℕ) → 0 < i → m ≤ max_retry_delay_secs → base_delay i m a ≡ min (i * 2 ^ (a - 1)) m
unfolding base_delay
base_delay_closed i m a hi hm =
    rw (shl_small (min (a - 1) 63) (exponent_min (a - 1))) (elim (le-cases (a - 1)) [
      | inl small ↦ let e : min (a - 1) 63 ≡ a - 1 = omega arith in rw e (omega arith)
      | inr large ↦
          let e : min (a - 1) 63 ≡ 63 = omega arith in
          rw e (capped i (2 ^ 63) (2 ^ (a - 1)) m hi (omega arith) (pow_mono 63 (a - 1) large) hm)
    ])

mul_mono : (i x y : ℕ) → x ≤ y → i * x ≤ i * y
mul_mono i x y h = grind arith

base_delay_mono :
    (i m a b : ℕ) → 0 < i → m ≤ max_retry_delay_secs → a ≤ b → base_delay i m a ≤ base_delay i m b
base_delay_mono i m a b hi hm h =
    rw (base_delay_closed i m a hi hm, base_delay_closed i m b hi hm)
      (omega
        (arith, mul_mono i (2 ^ (a - 1)) (2 ^ (b - 1)) (pow_mono (a - 1) (b - 1) (omega arith))))

-- A delay is given exactly for a one-based attempt and a percentile of at most 100.
pub delay_for_attempt_iff :
    (p : RetryPolicy) (a q : ℕ)
    → ((s : ℕ) × (delay_for_attempt p a q ≡ ok s)) ↔ ((0 < a) × (q ≤ 100))
unfolding delay_for_attempt
delay_for_attempt_iff p a q = (λ h. ground arith, λ h. (seconds_for p.backoff a q, ground arith))

seconds_for-le :
    (b : BackoffPolicy) (a q : ℕ)
    → InBounds b
    → q ≤ 100
    → seconds_for b a q ≤ 2 * max_retry_delay_secs
unfolding seconds_for
seconds_for-le (fixed_delay d) a q h hq = omega arith
seconds_for-le (exponential_delay i m j) a q h hq = omega (
  arith,
  base_delay-le-max i m a,
  apply_jitter_bounds (base_delay i m a) j q (le_trans (base_delay-le-max i m a) (omega arith)) h.3
      hq,
  scaled-le (base_delay i m a) j h.3,
)

-- The delay of an accepted policy, in milliseconds, fits the database's `i64`.
pub delay_for_attempt_fits :
    (p : RetryPolicy) (a q s : ℕ)
    → check p.backoff ≡ passed p.backoff
    → delay_for_attempt p a q ≡ ok s
    → s * 1000 ≤ 9_223_372_036_854_775_807
unfolding delay_for_attempt
delay_for_attempt_fits p a q s c e =
    ground (arith, seconds_for-le p.backoff a q ((check_iff p.backoff).0 c))

-- Without jitter an exponential policy doubles its initial delay with each attempt up to its
-- maximum, and a fixed policy keeps its delay.
abbrev pub unjittered : BackoffPolicy → ℕ → ℕ
unjittered (fixed_delay d) a = d
unjittered (exponential_delay i m j) a = min (i * 2 ^ (a - 1)) m

seconds_for-midpoint :
    (b : BackoffPolicy) (a : ℕ) → InBounds b → seconds_for b a 50 ≡ unjittered b a
unfolding seconds_for
seconds_for-midpoint (fixed_delay d) a h = refl
seconds_for-midpoint (exponential_delay i m j) a h =
    apply_jitter_midpoint (base_delay i m a) j (le_trans (base_delay-le-max i m a) (omega arith))
    ∙ base_delay_closed i m a h.0 h.2

-- At the midpoint percentile an accepted policy waits its fixed delay, or its initial delay doubled
-- once for each earlier attempt and cut at its maximum.
pub delay_for_attempt-midpoint :
    (p : RetryPolicy) (a : ℕ)
    → check p.backoff ≡ passed p.backoff
    → 0 < a
    → delay_for_attempt p a 50 ≡ ok (unjittered p.backoff a)
unfolding delay_for_attempt
delay_for_attempt-midpoint p a c h =
    ground (arith, seconds_for-midpoint p.backoff a ((check_iff p.backoff).0 c))

seconds_for_mono :
    (b : BackoffPolicy) (a a' q : ℕ)
    → InBounds b
    → q ≤ 100
    → a ≤ a'
    → seconds_for b a q ≤ seconds_for b a' q
unfolding seconds_for
seconds_for_mono (fixed_delay d) a a' q h hq l = omega arith
seconds_for_mono (exponential_delay i m j) a a' q h hq l =
    apply_jitter_mono (base_delay i m a) (base_delay i m a') j q
      (base_delay_mono i m a a' h.0 h.2 l) (le_trans (base_delay-le-max i m a') (omega arith)) h.3
      hq

-- At one percentile the delay of an accepted policy never shrinks from one attempt to a later one.
pub delay_for_attempt_mono :
    (p : RetryPolicy) (a a' q s s' : ℕ)
    → check p.backoff ≡ passed p.backoff
    → a ≤ a'
    → delay_for_attempt p a q ≡ ok s
    → delay_for_attempt p a' q ≡ ok s'
    → s ≤ s'
unfolding delay_for_attempt
delay_for_attempt_mono p a a' q s s' c l e e' =
    ground (arith, seconds_for_mono p.backoff a a' q ((check_iff p.backoff).0 c))
