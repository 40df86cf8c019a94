-- ===== src/Schedule/Overlap.antt =====
-- What a tick does with an outcome (`materialize_occurrence` and `promote_queued` in
-- durable-workflows/src/runtime/schedule_materializer.rs): the overlap policy, the row of the run and
-- the start of its workflow. The schedule's own start and the ids of new runs are arguments.
pub mod Active
use durable_workflows.Base.{
  ℕ, Bool, true, false, not, ◌&&◌, ◌==◌, ◌+◌, ◌++◌, if◌then◌else◌, Option, none, some, List, [],
  ◌∷◌, String, str_eq, min, ltb,
}
use durable_workflows.Base.Int.{ℤ, pos, ◌==ℤ◌, ltb_ℤ}
use durable_workflows.Base.Table.{first_by, select_where, count_where}
use durable_workflows.Base.Outcome.{ok, database}
use durable_workflows.Clock.{DbMillis, saturating_plus_millis}
use durable_workflows.Status.Workflow
use durable_workflows.Status.ScheduleRun
use durable_workflows.Status.ScheduleRun.{ScheduleRunStatus}
use durable_workflows.Rows.{WorkflowRow, ScheduleRunRow}
use durable_workflows.Tx.{
  Db, Tx, pure, reads, require, or_fail, update_schedule_runs, ensure_fenced, is_int, ◌>>=◌, ◌>>◌,
}
use durable_workflows.Temporal.{precedes}
use durable_workflows.Schedule.{ScheduleOccurrence, OccurrenceOutcome, start, skip, coalesce}

pub data OverlapPolicy : Type 0 where
  allow : OverlapPolicy
  skip_if_active : OverlapPolicy
  queue_one : OverlapPolicy

-- The counts of `ScheduleMaterializationReport` that an outcome changes.
pub record Report : Type 0 where
  pub started : ℕ
  pub skipped : ℕ
  pub coalesced : ℕ
  pub queued : ℕ

-- The mutable parts of `MaterializationTarget`, with the report.
pub record Tick : Type 0 where
  pub active : ℤ
  pub queued : Bool
  pub report : Report

pub record Target : Type 0 where
  pub schedule_key : String
  pub overlap : OverlapPolicy
  pub now : DbMillis
  pub run_id : ScheduleOccurrence → ℤ
  pub start_occurrence : ℤ → ℤ → Tx ℤ

-- `u32::saturating_add(1)`.
abbrev pub count_up : ℕ → ℕ
count_up n = min (n + 1) 4_294_967_295

-- What the overlap policy makes of an outcome: `none` is a place in the queue.
abbrev pub overlapped : OverlapPolicy → ℤ → Bool → OccurrenceOutcome → Option OccurrenceOutcome
overlapped skip_if_active active queued start =
    some (if ltb_ℤ (pos 0) active then skip "overlap_active" else start)
overlapped queue_one active queued start =
    if ltb_ℤ (pos 0) active
    then if queued then some (skip "overlap_queue_full") else none
    else some start
overlapped policy active queued outcome = some outcome

abbrev status_of : OccurrenceOutcome → ScheduleRunStatus
status_of start = ScheduleRunStatus.materializing
status_of (skip reason) = ScheduleRunStatus.skipped
status_of coalesce = ScheduleRunStatus.coalesced

abbrev reason_of : OccurrenceOutcome → Option String
reason_of start = none
reason_of (skip reason) = some reason
reason_of coalesce = some "run_latest"

abbrev pub new_run :
    Target → ScheduleOccurrence → ScheduleRunStatus → Option String → ScheduleRunRow
new_run target occurrence status reason = record {
  id = target.run_id occurrence;
  schedule_key = target.schedule_key;
  local_occurrence = occurrence.local_occurrence;
  scheduled_for = occurrence.scheduled_for;
  materialized_at = target.now;
  status = status;
  reason = reason;
  actor_id = none;
  workflow_id = none;
  created_at = target.now;
}

-- The unique key of the table.
abbrev same_occurrence : ScheduleRunRow → ScheduleRunRow → Bool
same_occurrence run r =
    str_eq r.schedule_key run.schedule_key && str_eq r.local_occurrence run.local_occurrence

unfoldable pub push_run : ScheduleRunRow → Tx ℤ
push_run run db = ok (run.id, record db { schedule_runs = db.schedule_runs ++ run ∷ [] })

unfoldable pub insert_schedule_run : ScheduleRunRow → Tx ℤ
unfolding push_run
insert_schedule_run run = do
  fresh ← reads (λ db. count_where (same_occurrence run) db.schedule_runs == 0)
  require fresh database
  push_run run

abbrev in_status : ℤ → ScheduleRunStatus → ScheduleRunRow → Bool
in_status id status r = r.id ==ℤ id && ScheduleRun.same r.status status

abbrev pub counted : OccurrenceOutcome → Tick → Tick
counted start tick = record tick {
  active = saturating_plus_millis tick.active (pos 1);
  report = record tick.report { started = count_up tick.report.started };
}
counted (skip reason) tick = record tick {
  report = record tick.report { skipped = count_up tick.report.skipped };
}
counted coalesce tick = record tick {
  report = record tick.report { coalesced = count_up tick.report.coalesced };
}

start_run : Target → ScheduleOccurrence → ℤ → OccurrenceOutcome → Tx Unit
start_run target occurrence run_id start = do
  workflow_id ← target.start_occurrence run_id occurrence.scheduled_for
  changed ←
      update_schedule_runs (in_status run_id ScheduleRunStatus.materializing)
        (λ r. record r { status = ScheduleRunStatus.started; workflow_id = some workflow_id })
  ensure_fenced changed
start_run target occurrence run_id outcome = pure tt

unfoldable pub materialize_as :
    Target → ScheduleOccurrence → Tick → Option OccurrenceOutcome → Tx Tick
unfolding insert_schedule_run start_run
materialize_as target occurrence tick none = do
  insert_schedule_run
      (new_run target occurrence ScheduleRunStatus.queued (some "overlap_queue_one"))
  pure (record tick {
    queued = true;
    report = record tick.report { queued = count_up tick.report.queued };
  })
materialize_as target occurrence tick (some outcome) = do
  run_id ← insert_schedule_run (new_run target occurrence (status_of outcome) (reason_of outcome))
  start_run target occurrence run_id outcome
  pure (counted outcome tick)

unfoldable pub materialize_occurrence :
    Target → ScheduleOccurrence → OccurrenceOutcome → Tick → Tx Tick
unfolding materialize_as
materialize_occurrence target occurrence outcome tick =
    materialize_as target occurrence tick
      (overlapped target.overlap tick.active tick.queued outcome)

-- The loop over the chunk and its outcomes.
unfoldable pub materialize_each :
    Target → List (ScheduleOccurrence × OccurrenceOutcome) → Tick → Tx Tick
unfolding materialize_occurrence
materialize_each target [] tick = pure tick
materialize_each target ((occurrence, outcome) ∷ planned) tick = do
  tick' ← materialize_occurrence target occurrence outcome tick
  materialize_each target planned tick'

abbrev run_first : ScheduleRunRow → ScheduleRunRow → Bool
run_first a b = precedes a.scheduled_for a.id b.scheduled_for b.id

abbrev queued_of : String → ScheduleRunRow → Bool
queued_of key r = str_eq r.schedule_key key && ScheduleRun.same r.status ScheduleRunStatus.queued

unfoldable pub promote_queued : Target → Tx Unit
promote_queued target = do
  found ←
      reads
        (λ db. first_by run_first (select_where (queued_of target.schedule_key) db.schedule_runs))
  run ← or_fail found database
  workflow_id ← target.start_occurrence run.id run.scheduled_for
  changed ← update_schedule_runs (in_status run.id ScheduleRunStatus.queued) (λ r. record r {
    status = ScheduleRunStatus.started;
    workflow_id = some workflow_id;
    reason = some "queue_one_promoted";
  })
  ensure_fenced changed

unfoldable pub queued_run_exists : String → Db → Bool
queued_run_exists key db = ltb 0 (count_where (queued_of key) db.schedule_runs)

-- A live workflow counts once for each run of the schedule that it is linked to.
abbrev run_of : String → WorkflowRow → ScheduleRunRow → Bool
run_of key w r = str_eq r.schedule_key key && is_int w.schedule_run_id r.id

abbrev active_rows : String → List ScheduleRunRow → List WorkflowRow → ℕ
active_rows key runs [] = 0
active_rows key runs (w ∷ ws) =
    (if Workflow.is_terminal w.status then 0 else count_where (run_of key w) runs)
    + active_rows key runs ws

unfoldable pub active_workflow_count : String → Db → ℕ
active_workflow_count key db = active_rows key db.schedule_runs db.workflows
