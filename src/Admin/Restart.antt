-- ===== src/Admin/Restart.antt =====
-- `restart` (durable-workflows/src/admin/control.rs): a paused, blocked or terminal workflow is started
-- anew under the same root, with its input or a corrected one; a live source is closed.
pub mod Sound
use durable_workflows.Base.{Bool, ◌&&◌, ◌==◌, if◌then◌else◌, Option, none, some, String}
use durable_workflows.Base.Int.{ℤ, ◌==ℤ◌}
use durable_workflows.Base.Table.{count_where}
use durable_workflows.Base.Outcome.{Result, invalid_state, conflict}
use durable_workflows.Status.Workflow
use durable_workflows.Status.Attempt.{AttemptOutcome}
use durable_workflows.Rows.{WorkflowRow, ScheduleRunRow}
use durable_workflows.Tx.{
  Tx, pure, lift, reads, require, update_workflows, update_schedule_runs, ensure_fenced, is_int,
  is_some, ◌>>=◌, ◌>>◌,
}
use durable_workflows.Events.{Env}
use durable_workflows.Parents.{failure, wake_waiting_parents_on_child_terminal}
use durable_workflows.Store.{
  PreparedStart, StartOptions, StartLineage, StartOutcome, check_prepared_start,
}
use durable_workflows.Store.Start.{insert_prepared}
use durable_workflows.Store.Generations.{restarts}
use durable_workflows.Store.Cancel.{
  cancel_activities, cancel_approvals, unchanged, cancel_owned_descendants,
}
use durable_workflows.Store.Recover.{superseded_row, root_for}
use durable_workflows.Admin.{Operator, Handlers, lock_workflow, append_operator_event}

abbrev prepared_for : Handlers → Option String → WorkflowRow → Result PreparedStart
prepared_for handlers none source =
    handlers.prepare_start_exact source.kind source.version source.input_json
prepared_for handlers (some input) source = handlers.prepare_start_current source.kind input

abbrev restart_options : WorkflowRow → StartOptions
restart_options source = record {
  available_at = none;
  schedule_run_id = source.schedule_run_id;
  lineage = StartLineage.restart (root_for source) source.id;
}

close_source : Env → Operator → WorkflowRow → Tx Unit
close_source env operator source = do
  cancel_activities source.id operator.reason AttemptOutcome.operator_cancelled env.now
  cancel_approvals source.id operator.reason env.now
  changed ← update_workflows (unchanged source) (superseded_row env.now)
  ensure_fenced changed
  append_operator_event source.id "workflow_superseded_by_restart" operator env.now
  wake_waiting_parents_on_child_terminal env source (failure "child_superseded" operator.reason)
      env.now
  cancel_owned_descendants env source operator.reason (some operator.actor_id) env.now

close_if_live : Env → Operator → WorkflowRow → Tx Unit
unfolding close_source
close_if_live env operator source =
    if Workflow.is_terminal source.status then pure tt else close_source env operator source

-- The schedule's run follows the restart.
repoint_run : Option ℤ → ℤ → ℤ → Tx Unit
repoint_run none source successor = pure tt
repoint_run (some run) source successor = do
  changed ←
      update_schedule_runs (λ r. r.id ==ℤ run && is_int r.workflow_id source)
        (λ r. record r { workflow_id = some successor })
  ensure_fenced changed

restart_locked : Env → Handlers → Operator → Option String → WorkflowRow → Tx ℤ
unfolding close_if_live repoint_run
restart_locked env handlers operator correction source = do
  require (Workflow.is_restartable source.status) conflict
  restarted_once ← reads (λ db. count_where (restarts source) db.workflows == 0)
  require restarted_once conflict
  prepared ← lift (prepared_for handlers correction source)
  lift (check_prepared_start prepared (restart_options source))
  outcome ← insert_prepared env prepared (restart_options source)
  require outcome.inserted invalid_state
  close_if_live env operator source
  repoint_run source.schedule_run_id source.id outcome.workflow_id
  append_operator_event source.id
      (if is_some correction then "workflow_corrected_and_restarted" else "workflow_restarted")
      operator env.now
  append_operator_event outcome.workflow_id "workflow_restart_created" operator env.now
  pure outcome.workflow_id

unfoldable pub restart : Env → Handlers → Operator → Option String → ℤ → Tx ℤ
unfolding restart_locked
restart env handlers operator correction workflow_id = do
  source ← lock_workflow workflow_id
  restart_locked env handlers operator correction source
