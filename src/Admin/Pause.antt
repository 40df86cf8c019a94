-- ===== src/Admin/Pause.antt =====
-- `pause_workflow` and `pause_activity` (durable-workflows/src/admin/control.rs).
pub mod Sound
use durable_workflows.Base.{not, ◌||◌, Option, none, some}
use durable_workflows.Base.Int.{ℤ, ◌==ℤ◌}
use durable_workflows.Base.Table.{first_where}
use durable_workflows.Base.Outcome.{invalid_state, conflict}
use durable_workflows.Clock.{DbMillis}
use durable_workflows.Status.Workflow
use durable_workflows.Status.Workflow.{WorkflowStatus}
use durable_workflows.Status.Activity.{ActivityStatus}
use durable_workflows.Status.Attempt
use durable_workflows.Status.Attempt.{AttemptOutcome}
use durable_workflows.Wait.{Wait}
use durable_workflows.Rows.{WorkflowRow, ActivityRow}
use durable_workflows.Tx.{
  Tx, pure, lift, reads, require, or_fail, update_workflows, update_activities, ensure_fenced,
  checked_succ, ◌>>=◌, ◌>>◌,
}
use durable_workflows.Events.{Env}
use durable_workflows.Parents.{row_wait}
use durable_workflows.Store.Cancel.{held_as, unchanged, revoked_row}
use durable_workflows.Admin.{Operator, lock_workflow, append_operator_event}

-- The attempt that the pause revokes does not count against the cap.
abbrev pub paused_activity : Operator → ℤ → DbMillis → ActivityRow → ActivityRow
paused_activity operator max_attempts now r =
    record (revoked_row (Attempt.as_str AttemptOutcome.operator_paused) operator.reason now r) {
      max_attempts = max_attempts;
    }

pause_running : Operator → ActivityRow → DbMillis → Tx Unit
pause_running operator activity now = do
  token ← or_fail activity.lease_token invalid_state
  max_attempts ← or_fail (checked_succ activity.max_attempts) invalid_state
  changed ← update_activities (held_as activity token) (paused_activity operator max_attempts now)
  ensure_fenced changed

-- Only a running activity is revoked.
pause_as : ActivityStatus → Operator → ActivityRow → DbMillis → Tx Unit
unfolding pause_running
pause_as ActivityStatus.running operator activity now = pause_running operator activity now
pause_as status operator activity now = pure tt

pause_found : Operator → Option ActivityRow → DbMillis → Tx Unit
unfolding pause_as
pause_found operator none now = pure tt
pause_found operator (some activity) now = pause_as activity.status operator activity now

unfoldable pub pause_activity : Operator → ℤ → DbMillis → Tx Unit
unfolding pause_found
pause_activity operator activity_id now = do
  found ← reads (λ db. first_where (λ a. a.id ==ℤ activity_id) db.activities)
  pause_found operator found now

pause_waited : Operator → Option Wait → DbMillis → Tx Unit
unfolding pause_activity
pause_waited operator (some (Wait.activity id)) now = pause_activity operator id now
pause_waited operator wait now = pure tt

-- The wait stays with the paused row.
abbrev pub paused_row : DbMillis → WorkflowRow → WorkflowRow
paused_row now r = record r {
  status = WorkflowStatus.paused;
  lease_owner = none;
  lease_token = none;
  lease_expires_at = none;
  updated_at = now;
}

pause_locked : Env → Operator → WorkflowRow → Tx Unit
unfolding pause_waited
pause_locked env operator workflow = do
  require
      (not (
        Workflow.same workflow.status WorkflowStatus.paused
        || Workflow.is_terminal workflow.status))
      conflict
  wait ← lift (row_wait workflow)
  pause_waited operator wait env.now
  changed ← update_workflows (unchanged workflow) (paused_row env.now)
  ensure_fenced changed
  append_operator_event workflow.id "workflow_paused" operator env.now

unfoldable pub pause_workflow : Env → Operator → ℤ → Tx Unit
unfolding pause_locked
pause_workflow env operator workflow_id = do
  workflow ← lock_workflow workflow_id
  pause_locked env operator workflow
