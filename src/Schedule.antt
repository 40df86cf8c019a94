-- ===== src/Schedule.antt =====
-- What becomes of the due occurrences of a schedule (`classify` in
-- durable-workflows/src/runtime/schedule_materializer.rs, with the policies of schedule.rs). A local
-- datetime is a number: only the calendar reads it.
pub mod Chunks
pub mod Starts
pub mod Plan
pub mod Overlap
use durable_workflows.Base.{
  ℕ, zero, suc, ◌-◌, Bool, true, false, not, List, [], ◌∷◌, ◌++◌, map, String, min, ◌==◌,
  if◌then◌else◌, length,
}
use durable_workflows.Base.Int.{ℤ, pos, ◌+ℤ◌, clamp, ltb_ℤ, i64_min, i64_max}
use durable_workflows.Base.Table.{select_where}
use durable_workflows.Clock.{DbMillis, saturating_plus_millis}

pub data MisfirePolicy : Type 0 where
  skip_late : MisfirePolicy
  run_latest : MisfirePolicy
  catch_up : (max_occurrences : ℕ) → MisfirePolicy

pub data LocalTimeDisposition : Type 0 where
  exact gap ambiguous_earlier : LocalTimeDisposition

pub record ScheduleOccurrence : Type 0 where
  pub local_datetime : ℤ
  pub local_occurrence : String
  pub scheduled_for : ℤ
  pub due_at : ℤ
  pub disposition : LocalTimeDisposition

pub data OccurrenceOutcome : Type 0 where
  start : OccurrenceOutcome
  skip : (reason : String) → OccurrenceOutcome
  coalesce : OccurrenceOutcome

abbrev pub is_gap : LocalTimeDisposition → Bool
is_gap exact = false
is_gap gap = true
is_gap ambiguous_earlier = false

-- The occurrences that `classify` collects the indices of.
abbrev pub runnable : List ScheduleOccurrence → List ScheduleOccurrence
runnable due = select_where (λ o. not (is_gap o.disposition)) due

abbrev pub late : ℤ → DbMillis → ScheduleOccurrence → OccurrenceOutcome
late grace_millis now o =
    if ltb_ℤ (saturating_plus_millis o.due_at grace_millis) now then skip "misfire_skip" else start

-- The last one gets the outcome, the earlier ones coalesce.
unfoldable pub latest : OccurrenceOutcome → List ScheduleOccurrence → List OccurrenceOutcome
latest outcome [] = []
latest outcome (o ∷ []) = outcome ∷ []
latest outcome (o ∷ p ∷ os) = coalesce ∷ latest outcome (p ∷ os)

unfoldable pub repeat : ℕ → OccurrenceOutcome → List OccurrenceOutcome
repeat zero outcome = []
repeat (suc n) outcome = outcome ∷ repeat n outcome

-- The last `start_count` start, the earlier ones are over the limit.
unfoldable pub catch_up_outcomes : ℕ → ℕ → List OccurrenceOutcome
unfolding repeat
catch_up_outcomes runnable_count start_count =
    repeat (runnable_count - start_count) (skip "catch_up_limit") ++ repeat start_count start

-- The outcomes of the runnable occurrences, in their order.
unfoldable pub runnable_outcomes :
    MisfirePolicy → ℤ → DbMillis → ℕ → List ScheduleOccurrence → List OccurrenceOutcome
unfolding latest catch_up_outcomes
runnable_outcomes skip_late grace_millis now following_runnable os = map (late grace_millis now) os
runnable_outcomes run_latest grace_millis now following_runnable os =
    latest (if following_runnable == 0 then start else coalesce) os
runnable_outcomes (catch_up max_occurrences) grace_millis now following_runnable os =
    catch_up_outcomes (length os) (min (max_occurrences - following_runnable) (length os))

-- The writes to the vector: a gap keeps its first entry, the others get theirs.
abbrev next_of : List OccurrenceOutcome → OccurrenceOutcome
next_of [] = skip "dst_gap"
next_of (outcome ∷ outcomes) = outcome

abbrev rest_of : List OccurrenceOutcome → List OccurrenceOutcome
rest_of [] = []
rest_of (outcome ∷ outcomes) = outcomes

unfoldable pub place : List ScheduleOccurrence → List OccurrenceOutcome → List OccurrenceOutcome
place [] outcomes = []
place (o ∷ due) outcomes =
    let kept = place due outcomes in
    let rest = place due (rest_of outcomes) in
    if is_gap o.disposition then skip "dst_gap" ∷ kept else next_of outcomes ∷ rest

unfoldable pub classify :
    List ScheduleOccurrence → MisfirePolicy → ℤ → DbMillis → ℕ → List OccurrenceOutcome
unfolding runnable_outcomes place
classify due policy grace_millis now following_runnable =
    place due (runnable_outcomes policy grace_millis now following_runnable (runnable due))

-- The runnable occurrences that a policy may start.
abbrev pub budget : MisfirePolicy → ℕ
budget skip_late = 0
budget run_latest = 1
budget (catch_up max_occurrences) = max_occurrences
