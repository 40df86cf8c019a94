-- ===== src/Schedule/Plan.antt =====
-- The chunk of due occurrences that one tick takes (`plan_due_chunk` in
-- durable-workflows/src/runtime/schedule_materializer.rs). The calendar (durable-workflows/src/schedule.rs)
-- stands on the time zone database and on the cron expression, so its answers are an argument.
pub mod Exact
use durable_workflows.Base.{
  ℕ, zero, suc, Bool, true, false, if◌then◌else◌, List, [], ◌∷◌, Option, none, some,
}
use durable_workflows.Base.Int.{ℤ, leb_ℤ}
use durable_workflows.Base.Outcome.{Result, ok, err, ◌>>=◌}
use durable_workflows.Clock.{DbMillis}
use durable_workflows.Schedule.{
  MisfirePolicy, ScheduleOccurrence, OccurrenceOutcome, classify, budget,
}

-- `next_after_local` and `next_runnable_through` of the `ScheduleCalendar`.
pub record Calendar : Type 0 where
  pub next_after_local : ℤ → Result ScheduleOccurrence
  pub next_runnable_through : ℤ → ℤ → Result (Option ScheduleOccurrence)

abbrev pub max_due_occurrences_per_tick : ℕ
max_due_occurrences_per_tick = 10_000

abbrev pub is_due : DbMillis → ScheduleOccurrence → Bool
is_due now o = leb_ℤ o.due_at now

-- The first `while` loop; the number is what the chunk may still take.
unfoldable pub collect :
    Calendar
    → DbMillis
    → ℕ
    → ScheduleOccurrence
    → Result (List ScheduleOccurrence × ScheduleOccurrence)
collect calendar now zero o = ok ([], o)
collect calendar now (suc n) o = elim (is_due now o) [
  | true ↦ do
    next ← calendar.next_after_local o.local_datetime
    chunk ← collect calendar now n next
    ok (o ∷ chunk.0, chunk.1)
  | false ↦ ok ([], o)
]

-- The second one; the number is what the budget still allows.
unfoldable pub count_following : Calendar → DbMillis → ℕ → ℤ → Result ℕ
count_following calendar now zero after = ok 0
count_following calendar now (suc n) after = calendar.next_runnable_through after now >>= λ found.
    elim found [
      | none ↦ ok 0
      | some o ↦ count_following calendar now n o.local_datetime >>= λ count. ok (suc count)
    ]

abbrev pub last_from : ScheduleOccurrence → List ScheduleOccurrence → ScheduleOccurrence
last_from o [] = o
last_from o (p ∷ os) = last_from p os

-- `due.last()`.
abbrev pub following_after : Calendar → DbMillis → ℕ → List ScheduleOccurrence → Result ℕ
following_after calendar now allowed [] = ok 0
following_after calendar now allowed (o ∷ due) =
    count_following calendar now allowed (last_from o due).local_datetime

unfoldable pub following_runnable :
    Calendar → DbMillis → ℕ → List ScheduleOccurrence → ScheduleOccurrence → Result ℕ
following_runnable calendar now allowed due next = elim (is_due now next) [
  | true ↦ following_after calendar now allowed due
  | false ↦ ok 0
]

unfoldable pub plan_due_chunk :
    Calendar
    → ScheduleOccurrence
    → MisfirePolicy
    → ℤ
    → DbMillis
    → Result (List ScheduleOccurrence × ScheduleOccurrence × List OccurrenceOutcome)
unfolding collect following_runnable
plan_due_chunk calendar occurrence policy grace_millis now = do
  chunk ← collect calendar now max_due_occurrences_per_tick occurrence
  following ← following_runnable calendar now (budget policy) chunk.0 chunk.1
  ok (chunk.0, chunk.1, classify chunk.0 policy grace_millis now following)
