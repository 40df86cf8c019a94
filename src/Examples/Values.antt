-- ===== src/Examples/Values.antt =====
-- Runs of the value types: policies, waits, statuses, clock and text.
use durable_workflows.Base.{◌≡◌, ◌↔◌, refl, arith, some, ◌≤◌, ◌<◌, ◌*◌, ◌+◌, ℕ, String}
use durable_workflows.Base.Int.{pos, ◌≤ℤ◌, ◌+ℤ◌}
use durable_workflows.Base.Outcome.{ok}
use durable_workflows.Status.Workflow
use durable_workflows.Status.Workflow.{WorkflowStatus}
use durable_workflows.Status.Waits.{WaitKind}
use durable_workflows.Status.RoundTrip.{WorkflowStatus_try_from_iff}
use durable_workflows.Policy.{
  RetryPolicy, exponential_delay, check, passed, delay_for_attempt, apply_jitter,
}
use durable_workflows.Policy.Delay.{
  InBounds, check_iff, delay_for_attempt_iff, delay_for_attempt_fits, delay_for_attempt-midpoint,
  delay_for_attempt_mono,
}
use durable_workflows.Policy.Jitter.{apply_jitter_bounds}
use durable_workflows.Clock.{plus, saturating_plus_millis, millis_since}
use durable_workflows.Clock.Bounds.{
  InRange, plus_iff, saturating_plus_millis_bounds, millis_since-saturating_plus,
}
use durable_workflows.Wait.{parse, approval}
use durable_workflows.Wait.Columns.{parse_iff, columns, AllStorable}
use durable_workflows.Text.{truncate_utf8, len}
use durable_workflows.Text.Cut.{truncate_utf8_longest, IsPrefix}

-- One second, doubled up to a minute, with a jitter of 20 percent.
abbrev doubling : RetryPolicy
doubling = record { backoff = exponential_delay 1 60 20 }

doubling_passed : check doubling.backoff ≡ passed doubling.backoff
unfolding check
doubling_passed = refl

delay_for_attempt-midpoint_example : delay_for_attempt doubling 4 50 ≡ ok 8
delay_for_attempt-midpoint_example =
    delay_for_attempt-midpoint doubling 4 doubling_passed (omega arith)

delay_at_4 : delay_for_attempt doubling 5 0 ≡ ok 13
unfolding delay_for_attempt
delay_at_4 = refl

delay_at_9 : delay_for_attempt doubling 9 0 ≡ ok 48
unfolding delay_for_attempt
delay_at_9 = refl

delay_for_attempt_mono_example : 13 ≤ 48
delay_for_attempt_mono_example =
    delay_for_attempt_mono doubling 5 9 0 13 48 doubling_passed (omega arith) delay_at_4 delay_at_9

delay_for_attempt_fits_example : 48 * 1000 ≤ 9_223_372_036_854_775_807
delay_for_attempt_fits_example = delay_for_attempt_fits doubling 9 0 48 doubling_passed delay_at_9

delay_for_attempt_iff_example :
    ((s : ℕ) × (delay_for_attempt doubling 3 99 ≡ ok s)) ↔ ((0 < 3) × (99 ≤ 100))
delay_for_attempt_iff_example = delay_for_attempt_iff doubling 3 99

check_iff_example :
    (check (exponential_delay 2 60 20) ≡ passed (exponential_delay 2 60 20))
    ↔ InBounds (exponential_delay 2 60 20)
check_iff_example = check_iff (exponential_delay 2 60 20)

apply_jitter_bounds_example :
    (100 * apply_jitter 1000 20 75 ≤ 100 * 1000 + 1000 * 20)
    × (100 * 1000 ≤ 100 * apply_jitter 1000 20 75 + 1000 * 20)
apply_jitter_bounds_example =
    apply_jitter_bounds 1000 20 75 (omega arith) (omega arith) (omega arith)

parse_iff_example :
    (parse (some WaitKind.approval) (some (pos 7)) ≡ ok (some (approval (pos 7)))) ↔ (
      ((some WaitKind.approval, some (pos 7)) ≡ columns (some (approval (pos 7))))
      × AllStorable (some (approval (pos 7))))
parse_iff_example = parse_iff (some WaitKind.approval) (some (pos 7)) (some (approval (pos 7)))

truncate_utf8_longest_example :
    IsPrefix (truncate_utf8 "aé" 2) "aé"
    × (len (truncate_utf8 "aé" 2) ≤ 2)
    × ((u : String) → IsPrefix u "aé" → len u ≤ 2 → len u ≤ len (truncate_utf8 "aé" 2))
truncate_utf8_longest_example = truncate_utf8_longest "aé" 2

plus_iff_example :
    (plus (pos 5) 10 ≡ ok (pos 15))
    ↔ ((pos 15 ≡ pos 5 +ℤ pos 10) × InRange (pos 15) × (10 ≤ 9_223_372_036_854_775_807))
plus_iff_example = plus_iff (pos 5) 10 (pos 15) (omega arith, omega arith)

saturating_plus_millis_bounds_example :
    (pos 5 ≤ℤ saturating_plus_millis (pos 5) (pos 10))
    × InRange (saturating_plus_millis (pos 5) (pos 10))
saturating_plus_millis_bounds_example =
    saturating_plus_millis_bounds (pos 5) 10 (omega arith, omega arith)

fifteen_InRange : InRange (pos 5 +ℤ pos 10)
unfolding ◌+ℤ◌
fifteen_InRange = (omega arith, omega arith)

millis_since-saturating_plus_example :
    millis_since (saturating_plus_millis (pos 5) (pos 10)) (pos 5) ≡ pos 10
millis_since-saturating_plus_example =
    millis_since-saturating_plus (pos 5) 10 (omega arith) fifteen_InRange

WorkflowStatus_try_from_iff_example :
    (Workflow.try_from "blocked" ≡ ok WorkflowStatus.blocked)
    ↔ ("blocked" ≡ Workflow.as_str WorkflowStatus.blocked)
WorkflowStatus_try_from_iff_example = WorkflowStatus_try_from_iff "blocked" WorkflowStatus.blocked
