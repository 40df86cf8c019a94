-- ===== src/Policy/Jitter.antt =====
-- The jitter stays within its percentage of the base delay.
use durable_workflows.Base.{ℕ, ◌+◌, ◌-◌, ◌*◌, ◌/◌, ◌≤◌, ◌≡◌, ◌⊎◌, inl, inr, arith, min}
use durable_workflows.Policy.{u64_max, apply_jitter}

-- The signed computation in natural numbers, above and below the midpoint percentile.
pub jitter_up :
    (base jitter percentile : ℕ)
    → base ≤ u64_max
    → 50 ≤ percentile
    → apply_jitter base jitter percentile
      ≡ min (base + base * jitter / 100 * (percentile * 2 - 100) / 100) u64_max
unfolding apply_jitter
jitter_up base jitter percentile fits h = ground arith

pub jitter_down :
    (base jitter percentile : ℕ)
    → base ≤ u64_max
    → percentile ≤ 50
    → apply_jitter base jitter percentile
      ≡ base - base * jitter / 100 * (100 - percentile * 2) / 100
unfolding apply_jitter
jitter_down base jitter percentile fits h = ground arith

half-cases : (n : ℕ) → (50 ≤ n) ⊎ (n ≤ 50)
half-cases n = omega arith

share-le : (s k : ℕ) → k ≤ 100 → s * k / 100 ≤ s
share-le s k h = grind arith

share_mono : (s t k : ℕ) → s ≤ t → s * k / 100 ≤ t * k / 100
share_mono s t k h = grind arith

pub scaled-le : (d k : ℕ) → k ≤ 100 → d * k ≤ 100 * d
scaled-le d k h = grind arith

-- A share of at most 100 percent grows no faster than the whole.
share_slow_add : (s d k : ℕ) → k ≤ 100 → (s + d) * k / 100 ≤ s * k / 100 + d
share_slow_add s d k h = omega (arith, scaled-le d k h)

share_slow : (s t k : ℕ) → s ≤ t → k ≤ 100 → t * k / 100 ≤ s * k / 100 + (t - s)
share_slow s t k h hk =
    let e : s + (t - s) ≡ t = omega arith in rw e at (share_slow_add s (t - s) k hk)

-- For a jitter percent and a percentile of at most 100, the delay is at most `jitter` percent of
-- the base away from the base.
pub apply_jitter_bounds :
    (base jitter percentile : ℕ)
    → base ≤ u64_max
    → jitter ≤ 100
    → percentile ≤ 100
    → (100 * apply_jitter base jitter percentile ≤ 100 * base + base * jitter)
      × (100 * base ≤ 100 * apply_jitter base jitter percentile + base * jitter)
apply_jitter_bounds base jitter percentile fits hj hp = elim (half-cases percentile) [
  | inl up ↦ omega (
    arith,
    jitter_up base jitter percentile fits up,
    share-le (base * jitter / 100) (percentile * 2 - 100) (omega arith),
  )
  | inr down ↦ omega (
    arith,
    jitter_down base jitter percentile fits down,
    share-le (base * jitter / 100) (100 - percentile * 2) (omega arith),
  )
]

-- The midpoint percentile adds nothing.
pub apply_jitter_midpoint : (base jitter : ℕ) → base ≤ u64_max → apply_jitter base jitter 50 ≡ base
apply_jitter_midpoint base jitter fits =
    omega (arith, jitter_down base jitter 50 fits (omega arith))

-- A longer base delay gives no shorter delay at the same percentile.
pub apply_jitter_mono :
    (base base' jitter percentile : ℕ)
    → base ≤ base'
    → base' ≤ u64_max
    → jitter ≤ 100
    → percentile ≤ 100
    → apply_jitter base jitter percentile ≤ apply_jitter base' jitter percentile
apply_jitter_mono base base' jitter percentile h fits hj hp = elim (half-cases percentile) [
  | inl up ↦ omega (
    arith,
    jitter_up base jitter percentile (omega arith) up,
    jitter_up base' jitter percentile fits up,
    share_mono (base * jitter / 100) (base' * jitter / 100) (percentile * 2 - 100)
        (share_mono base base' jitter h),
  )
  | inr down ↦ omega (
    arith,
    jitter_down base jitter percentile (omega arith) down,
    jitter_down base' jitter percentile fits down,
    share_slow base base' jitter h hj,
    share_slow (base * jitter / 100) (base' * jitter / 100) (100 - percentile * 2)
        (share_mono base base' jitter h) (omega arith),
  )
]
