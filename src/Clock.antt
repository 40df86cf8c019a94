-- ===== src/Clock.antt =====
-- Database timestamps (durable-workflows/src/clock.rs) and the waits of a workflow's two wait
-- columns are plain integers here: a `DbMillis` is its `i64`.
pub mod Bounds
use durable_workflows.Base.{ℕ, Bool, Option, none, some, ltb, if◌then◌else◌}
use durable_workflows.Base.Int.{ℤ, pos, ◌+ℤ◌, ◌-ℤ◌, clamp, checked, i64_min, i64_max, ltb_ℤ}
use durable_workflows.Base.Outcome.{Result, ok, err, invalid_definition, ok_or, ◌>>=◌}

abbrev pub DbMillis : Type 0
DbMillis = ℤ

unfoldable pub checked_plus_millis : DbMillis → ℤ → Option DbMillis
unfolding ◌+ℤ◌
checked_plus_millis self millis = checked i64_min i64_max (self +ℤ millis)

unfoldable pub plus_millis : DbMillis → ℤ → Result DbMillis
unfolding checked_plus_millis
plus_millis self millis = ok_or (checked_plus_millis self millis) invalid_definition

-- `i64::try_from` of a duration's milliseconds.
unfoldable pub duration_millis : ℕ → Result ℤ
duration_millis millis =
    if ltb 9_223_372_036_854_775_807 millis then err invalid_definition else ok (pos millis)

unfoldable pub plus : DbMillis → ℕ → Result DbMillis
unfolding plus_millis duration_millis
plus self duration = do millis ← duration_millis duration; plus_millis self millis

unfoldable pub saturating_plus_millis : DbMillis → ℤ → DbMillis
unfolding ◌+ℤ◌
saturating_plus_millis self millis = clamp i64_min i64_max (self +ℤ millis)

unfoldable pub saturating_minus_millis : DbMillis → ℤ → DbMillis
unfolding ◌-ℤ◌
saturating_minus_millis self millis = clamp i64_min i64_max (self -ℤ millis)

unfoldable pub millis_since : DbMillis → DbMillis → ℤ
unfolding ◌-ℤ◌
millis_since self earlier = clamp i64_min i64_max (self -ℤ earlier)
