-- ===== src/Worker/Revoke.antt =====
-- The settling of a revoked attempt (`settle_revoked` in
-- durable-workflows/src/runtime/activity_worker.rs).
use durable_workflows.Base.{Bool, ◌&&◌, none, some, String, if◌then◌else◌}
use durable_workflows.Base.Int.{◌==ℤ◌}
use durable_workflows.Base.Table.{first_where}
use durable_workflows.Base.Outcome.{invalid_state, database}
use durable_workflows.Clock.{DbMillis}
use durable_workflows.Status.Workflow
use durable_workflows.Status.Activity
use durable_workflows.Status.Activity.{ActivityStatus}
use durable_workflows.Status.Attempt.{AttemptOutcome}
use durable_workflows.Rows.{ActivityRow}
use durable_workflows.Tx.{
  Tx, reads, or_fail, update_activities, ensure_fenced, is_text, ◌>>=◌, ◌>>◌,
}
use durable_workflows.Events.{append_activity_history}
use durable_workflows.Worker.{close_attempt}

-- `cancelled` under a terminal workflow, else claimable at once.
abbrev pub settled_row : Bool → ActivityRow → DbMillis → ActivityRow → ActivityRow
settled_row terminal row now r = record r {
  status = if terminal then ActivityStatus.cancelled else ActivityStatus.pending;
  available_at = if terminal then row.available_at else now;
  lease_owner = none;
  lease_token = none;
  lease_expires_at = none;
  updated_at = now;
  completed_at = if terminal then some now else none;
}

abbrev pub still_cancelling : ActivityRow → String → ActivityRow → Bool
still_cancelling row token r =
    r.id ==ℤ row.id
    && Activity.same r.status ActivityStatus.cancelling
    && r.attempt_count ==ℤ row.attempt_count
    && is_text r.lease_token token

unfoldable pub settle_revoked : ActivityRow → AttemptOutcome → String → DbMillis → Tx Unit
settle_revoked row attempt_outcome message now = do
  lease_token ← or_fail row.lease_token invalid_state
  found ← reads (λ db. first_where (λ w. w.id ==ℤ row.workflow_id) db.workflows)
  workflow ← or_fail found database
  close_attempt row attempt_outcome message now
  changed ←
      update_activities (still_cancelling row lease_token)
        (settled_row (Workflow.is_terminal workflow.status) row now)
  ensure_fenced changed
  append_activity_history row "activity_revoke_settled" (some message) now
