-- ===== src/Schedule/Plan/Exact.antt =====
-- A chunk has the outcomes that its occurrences have when all due occurrences are classified at once.
use durable_workflows.Base.{ℕ, ◌≡◌, true, false, List, [], ◌∷◌, ◌++◌, Option, none, some, ◌⊎◌}
use durable_workflows.Base.Int.{ℤ}
use durable_workflows.Base.Outcome.{ok}
use durable_workflows.Clock.{DbMillis}
use durable_workflows.Schedule.{
  MisfirePolicy, ScheduleOccurrence, OccurrenceOutcome, classify, runnable,
}
use durable_workflows.Schedule.Plan.{Calendar, is_due, collect, last_from, plan_due_chunk}

-- All the occurrences from one on that are due, in the calendar's order.
pub data AllDue (calendar : Calendar) (now : DbMillis)
    : ScheduleOccurrence → List ScheduleOccurrence → Type 0 where
  none_due : {o : ScheduleOccurrence} → is_due now o ≡ false → AllDue calendar now o []
  one_due :
      {o next : ScheduleOccurrence} {os : List ScheduleOccurrence}
      → is_due now o ≡ true
      → calendar.next_after_local o.local_datetime ≡ ok next
      → AllDue calendar now next os
      → AllDue calendar now o (o ∷ os)

abbrev first_of : List ScheduleOccurrence → Option ScheduleOccurrence
first_of [] = none
first_of (o ∷ os) = some o

-- The calendar finds the first runnable occurrence that is due, if there is one.
abbrev pub FindsRunnable : Calendar → DbMillis → Type 0
FindsRunnable calendar now =
    (p o : ScheduleOccurrence) (os : List ScheduleOccurrence)
    → calendar.next_after_local p.local_datetime ≡ ok o
    → AllDue calendar now o os
    → calendar.next_runnable_through p.local_datetime now ≡ ok (first_of (runnable os))

module _ (calendar : Calendar) (now : DbMillis) where
  -- A chunk taken after an occurrence: what is left starts where the calendar continues.
  Collected : ScheduleOccurrence → ScheduleOccurrence → List ScheduleOccurrence → ℕ → Type 0
  Collected p o os n =
      (due : List ScheduleOccurrence) × (next : ScheduleOccurrence) × (rest : List
        ScheduleOccurrence)
      × (collect calendar now n o ≡ ok (due, next))
      × (os ≡ due ++ rest)
      × AllDue calendar now next rest
      × (calendar.next_after_local (last_from p due).local_datetime ≡ ok next)

  -- The first runnable occurrence of those that are due, and what follows it.
  Found : List ScheduleOccurrence → Type 0
  Found os =
      (runnable os ≡ [])
      ⊎ ((x : ScheduleOccurrence) × (next : ScheduleOccurrence) × (rest : List ScheduleOccurrence)
          × (runnable os ≡ x ∷ runnable rest)
          × (calendar.next_after_local x.local_datetime ≡ ok next)
          × AllDue calendar now next rest)

-- What a plan gives: a first part of the due occurrences, with the outcomes that this part has when all
-- of them are classified at once.
abbrev pub IsPlanned :
    Calendar → ScheduleOccurrence → MisfirePolicy → ℤ → DbMillis → List ScheduleOccurrence → Type 0
IsPlanned calendar o policy grace_millis now all =
    (due : List ScheduleOccurrence) × (next : ScheduleOccurrence) × (rest : List ScheduleOccurrence)
    × (outcomes : List OccurrenceOutcome) × (plan_due_chunk calendar o policy grace_millis now
        ≡ ok (due, next, outcomes))
    × (all ≡ due ++ rest)
    × AllDue calendar now next rest
    × (outcomes ++ classify rest policy grace_millis now 0 ≡ classify all policy grace_millis now 0)
