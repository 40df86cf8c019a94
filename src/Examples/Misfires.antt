-- ===== src/Examples/Misfires.antt =====
-- The classification of four due occurrences, the third of them in a gap of the clock.
use durable_workflows.Base.{
  false, none, ◌≡◌, refl, ◌-◌, List, [], ◌∷◌, ◌++◌, length, min, ◌==◌, if◌then◌else◌,
}
use durable_workflows.Base.Int.{pos, ℤ}
use durable_workflows.Base.Outcome.{ok}
use durable_workflows.Schedule.Plan.{Calendar}
use durable_workflows.Tx.{pure}
use durable_workflows.Schedule.Overlap.{queue_one, Tick, Target}
use durable_workflows.Schedule.{
  OccurrenceOutcome, LocalTimeDisposition, ScheduleOccurrence, catch_up, run_latest, start, skip,
  classify, runnable, budget,
}
use durable_workflows.Schedule.Chunks.{classify-append}
use durable_workflows.Schedule.Starts.{starts, starts-classify}

abbrev at : ℤ → LocalTimeDisposition → ScheduleOccurrence
at t disposition = record {
  local_datetime = t;
  local_occurrence = "";
  scheduled_for = t;
  due_at = t;
  disposition = disposition;
}

abbrev chunk : List ScheduleOccurrence
chunk = at (pos 10) LocalTimeDisposition.exact ∷ at (pos 20) LocalTimeDisposition.exact ∷ []

abbrev rest : List ScheduleOccurrence
rest = at (pos 30) LocalTimeDisposition.gap ∷ at (pos 40) LocalTimeDisposition.exact ∷ []

classify_run :
    classify (chunk ++ rest) (catch_up 2) (pos 0) (pos 50) 0
    ≡ skip "catch_up_limit" ∷ start ∷ skip "dst_gap" ∷ start ∷ []
unfolding classify
classify_run = refl

classify-append_example :
    classify chunk
        (catch_up 2)
        (pos 0)
        (pos 50)
        (min (budget (catch_up 2)) (length (runnable rest)))
      ++ classify rest (catch_up 2) (pos 0) (pos 50) 0
    ≡ classify (chunk ++ rest) (catch_up 2) (pos 0) (pos 50) 0
classify-append_example = classify-append (catch_up 2) (pos 0) (pos 50) chunk rest

starts-classify_example :
    (starts (classify chunk run_latest (pos 0) (pos 50) 1)
      ≡ (if 1 == 0 then min 1 (length (runnable chunk)) else 0))
    × (starts (classify chunk (catch_up 2) (pos 0) (pos 50) 1)
        ≡ min (2 - 1) (length (runnable chunk)))
starts-classify_example = starts-classify chunk (pos 0) (pos 50) 1 2

-- After the occurrence at 10 the next is at 1000.
abbrev far : ScheduleOccurrence
far = at (pos 1_000) LocalTimeDisposition.exact

abbrev calendar : Calendar
calendar = record {
  next_after_local = λ after. ok far;
  next_runnable_through = λ after through. ok none;
}

abbrev target : Target
target = record {
  schedule_key = "nightly";
  overlap = queue_one;
  now = pos 50;
  run_id = λ o. o.due_at;
  start_occurrence = λ run scheduled_for. pure (pos 9);
}

abbrev planned : List (ScheduleOccurrence × OccurrenceOutcome)
planned =
    (at (pos 10) LocalTimeDisposition.exact, start)
    ∷ (at (pos 20) LocalTimeDisposition.exact, start)
    ∷ []

abbrev busy : Tick
busy = record {
  active = pos 1;
  queued = false;
  report = record { started = 0; skipped = 0; coalesced = 0; queued = 0 };
}
