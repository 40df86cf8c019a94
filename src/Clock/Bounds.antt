-- ===== src/Clock/Bounds.antt =====
-- Every sum of timestamps is exact, refused or cut at the end of the `i64` range.
use durable_workflows.Base.{ℕ, ◌≤◌, ◌≡◌, ◌↔◌, arith}
use durable_workflows.Base.Int.{ℤ, pos, ◌+ℤ◌, ◌≤ℤ◌, ◌-ℤ◌, clamp, int_laws, i64_min, i64_max}
use durable_workflows.Base.Outcome.{ok}
use durable_workflows.Clock.{DbMillis, plus, saturating_plus_millis, millis_since}

abbrev pub InRange : ℤ → Type 0
InRange a = (i64_min ≤ℤ a) × (a ≤ℤ i64_max)

-- `plus` gives a timestamp exactly when the duration and the exact sum are in range, and then gives
-- that sum.
pub plus_iff :
    (t : DbMillis) (d : ℕ) (r : DbMillis)
    → InRange t
    → (plus t d ≡ ok r) ↔ ((r ≡ t +ℤ pos d) × InRange r × (d ≤ 9_223_372_036_854_775_807))
unfolding plus ◌+ℤ◌
plus_iff t d r h = (λ e. ground arith, λ e. ground arith)

-- Adding a non-negative delay never moves a timestamp back and never leaves the range.
pub saturating_plus_millis_bounds :
    (t : DbMillis) (d : ℕ)
    → InRange t
    → (t ≤ℤ saturating_plus_millis t (pos d)) × InRange (saturating_plus_millis t (pos d))
unfolding saturating_plus_millis
saturating_plus_millis_bounds t d h = ground arith

clamp_exact : (a : ℤ) → InRange a → clamp i64_min i64_max a ≡ a
clamp_exact a h = ground arith

saturating_plus_exact :
    (t : DbMillis) (d : ℕ) → InRange (t +ℤ pos d) → saturating_plus_millis t (pos d) ≡ t +ℤ pos d
unfolding saturating_plus_millis
saturating_plus_exact t d h = clamp_exact (t +ℤ pos d) h

minus_plus : (t d : ℤ) → t +ℤ d -ℤ t ≡ d
minus_plus t d = omega int_laws

millis_since_exact : (t d : ℤ) → InRange d → millis_since (t +ℤ d) t ≡ d
unfolding millis_since
millis_since_exact t d h = rw (minus_plus t d) (clamp_exact d h)

-- Where nothing is cut, the elapsed milliseconds lead from the earlier timestamp to the later.
pub millis_since-saturating_plus :
    (t : DbMillis) (d : ℕ)
    → d ≤ 9_223_372_036_854_775_807
    → InRange (t +ℤ pos d)
    → millis_since (saturating_plus_millis t (pos d)) t ≡ pos d
millis_since-saturating_plus t d h k =
    rw (saturating_plus_exact t d k) (millis_since_exact t (pos d) (omega arith))
