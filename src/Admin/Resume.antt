-- ===== src/Admin/Resume.antt =====
-- `resume_workflow` and `resume_status` (durable-workflows/src/admin/control.rs).
pub mod Sound
use durable_workflows.Base.{Bool, ◌&&◌, if◌then◌else◌, Option, none, some}
use durable_workflows.Base.Int.{ℤ, ◌==ℤ◌}
use durable_workflows.Base.Table.{first_where}
use durable_workflows.Base.Outcome
use durable_workflows.Base.Outcome.{Result, ok, err, invalid_state, conflict, ok_or}
use durable_workflows.Clock.{DbMillis}
use durable_workflows.Status.Workflow
use durable_workflows.Status.Workflow.{WorkflowStatus}
use durable_workflows.Status.Activity.{ActivityStatus}
use durable_workflows.Status.Approval
use durable_workflows.Status.Approval.{ApprovalStatus}
use durable_workflows.Wait.{Wait}
use durable_workflows.Rows.{WorkflowRow, ActivityRow, ApprovalRow}
use durable_workflows.Tx.{
  Db, Tx, pure, lift, reads, require, update_workflows, ensure_fenced, ◌>>=◌, ◌>>◌,
}
use durable_workflows.Events.{Env}
use durable_workflows.Parents.{row_wait}
use durable_workflows.Admin.{Operator, lock_workflow, append_operator_event}

abbrev for_activity : ActivityStatus → Result WorkflowStatus
for_activity ActivityStatus.pending = ok WorkflowStatus.waiting_activity
for_activity ActivityStatus.running = ok WorkflowStatus.waiting_activity
for_activity ActivityStatus.cancelling = ok WorkflowStatus.waiting_activity
for_activity ActivityStatus.dead_lettered = ok WorkflowStatus.blocked
for_activity ActivityStatus.succeeded = ok WorkflowStatus.ready
for_activity ActivityStatus.cancelled = err conflict

abbrev for_child : WorkflowStatus → Result WorkflowStatus
for_child status =
    if Workflow.is_terminal status then err conflict else ok WorkflowStatus.waiting_child

abbrev for_approval : ApprovalStatus → Result WorkflowStatus
for_approval status =
    if Approval.same status ApprovalStatus.pending
    then ok WorkflowStatus.waiting_approval
    else ok WorkflowStatus.ready

-- The status that goes with the wait, by what the row that it refers to says.
unfoldable pub resume_status : Db → Option Wait → Result WorkflowStatus
resume_status db none = ok WorkflowStatus.ready
resume_status db (some (Wait.timer command_sequence)) = ok WorkflowStatus.sleeping
resume_status db (some (Wait.activity id)) =
    Outcome.◌>>=◌ (ok_or (first_where (λ a. a.id ==ℤ id) db.activities) invalid_state)
      (λ a. for_activity a.status)
resume_status db (some (Wait.child id)) =
    Outcome.◌>>=◌ (ok_or (first_where (λ w. w.id ==ℤ id) db.workflows) invalid_state)
      (λ w. for_child w.status)
resume_status db (some (Wait.approval id)) =
    Outcome.◌>>=◌ (ok_or (first_where (λ a. a.id ==ℤ id) db.approvals) invalid_state)
      (λ a. for_approval a.status)

abbrev pub resumed_row : WorkflowRow → WorkflowStatus → DbMillis → WorkflowRow → WorkflowRow
resumed_row workflow status now r = record r {
  status = status;
  available_at = if Workflow.same status WorkflowStatus.ready then now else workflow.available_at;
  lease_owner = none;
  lease_token = none;
  lease_expires_at = none;
  updated_at = now;
}

abbrev pub is_paused : WorkflowRow → WorkflowRow → Bool
is_paused workflow r = r.id ==ℤ workflow.id && Workflow.same r.status WorkflowStatus.paused

unfoldable pub resume_locked : Env → Operator → WorkflowRow → Tx WorkflowStatus
resume_locked env operator workflow = do
  require (Workflow.same workflow.status WorkflowStatus.paused) conflict
  wait ← lift (row_wait workflow)
  answer ← reads (λ db. resume_status db wait)
  status ← lift answer
  changed ← update_workflows (is_paused workflow) (resumed_row workflow status env.now)
  ensure_fenced changed
  append_operator_event workflow.id "workflow_resumed" operator env.now
  pure status

unfoldable pub resume_workflow : Env → Operator → ℤ → Tx WorkflowStatus
resume_workflow env operator workflow_id = do
  workflow ← lock_workflow workflow_id
  resume_locked env operator workflow
