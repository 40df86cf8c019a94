-- ===== src/Admin/Resolve.antt =====
-- `resolve_approval` (durable-workflows/src/admin/control.rs): an operator's decision on a pending
-- approval, delivered to the workflow that waits for it.
pub mod Sound
use durable_workflows.Base.{
  Bool, true, false, not, ◌&&◌, ◌||◌, if◌then◌else◌, Option, none, some, String, str_eq,
}
use durable_workflows.Base.Int.{ℤ, ◌==ℤ◌, leb_ℤ}
use durable_workflows.Base.Table.{first_where}
use durable_workflows.Base.Outcome.{invalid_state, not_found, conflict}
use durable_workflows.Clock.{DbMillis}
use durable_workflows.Status.Workflow
use durable_workflows.Status.Workflow.{WorkflowStatus}
use durable_workflows.Status.Approval
use durable_workflows.Status.Approval.{ApprovalStatus}
use durable_workflows.Text.{ensure_size}
use durable_workflows.Wait.{u32_try_from}
use durable_workflows.Rows.{WorkflowRow, ApprovalRow}
use durable_workflows.Tx.{
  Tx, lift, reads, require, or_fail, update_workflows, update_approvals, append_event,
  next_event_sequence, ensure_fenced, checked_succ, is_int, ◌>>=◌, ◌>>◌,
}
use durable_workflows.Events.{
  Env, WorkflowEvent, approval_resolved, ApprovalResult, max_event_metadata_bytes,
}
use durable_workflows.Parents.{row_wait, woken}
use durable_workflows.Temporal.{waits_on_approval}
use durable_workflows.Admin.{
  Operator, Handlers, operator_actor_id, lock_workflow, append_operator_event,
}

abbrev has_expired : Option DbMillis → DbMillis → Bool
has_expired none now = false
has_expired (some expires_at) now = leb_ℤ expires_at now

abbrev pub resolved_approval : String → ℤ → Operator → DbMillis → ApprovalRow → ApprovalRow
resolved_approval decision actor operator now a = record a {
  status = ApprovalStatus.resolved;
  decision_payload_json = some decision;
  decided_by = some actor;
  operator_reason = some operator.reason;
  resolved_at = some now;
}

abbrev pub still_waits : WorkflowRow → ApprovalRow → WorkflowRow → Bool
still_waits workflow approval r =
    r.id ==ℤ workflow.id
    && Workflow.same r.status workflow.status
    && is_int r.wait_reference_id approval.id

abbrev pub answered_row : WorkflowStatus → DbMillis → WorkflowRow → WorkflowRow
answered_row status now r = record r {
  status = woken status;
  wait_kind = none;
  wait_reference_id = none;
  available_at = now;
  updated_at = now;
}

abbrev resolution : WorkflowRow → String → ApprovalResult
resolution workflow decision = record {
  kind = workflow.kind;
  version = workflow.version;
  payload_json = decision;
}

deliver_decision : Env → Operator → ℤ → WorkflowRow → ApprovalRow → String → Tx Unit
deliver_decision env operator actor workflow approval decision = do
  command_sequence ← lift (u32_try_from approval.command_sequence)
  let metadata =
      env.encode_event (approval_resolved command_sequence (resolution workflow decision))
  lift (ensure_size metadata max_event_metadata_bytes)
  delivery_sequence ← or_fail (checked_succ workflow.delivered_event_sequence) invalid_state
  sequence ← next_event_sequence workflow.id
  append_event (record {
    workflow_id = workflow.id;
    sequence = sequence;
    delivery_sequence = some delivery_sequence;
    event_type = "approval_resolved";
    metadata_json = some metadata;
    actor_type = some "operator";
    actor_id = some operator.actor_id;
    reason = some operator.reason;
    created_at = env.now;
  })
  changed ←
      update_approvals (λ a. a.id ==ℤ approval.id && Approval.same a.status ApprovalStatus.pending)
        (resolved_approval decision actor operator env.now)
  ensure_fenced changed
  changed' ← update_workflows (still_waits workflow approval) (answered_row workflow.status env.now)
  ensure_fenced changed'

resolve_locked : Env → Handlers → Operator → ℤ → String → WorkflowRow → ApprovalRow → Tx Unit
unfolding deliver_decision
resolve_locked env handlers operator actor decision_json workflow approval = do
  require (Approval.same approval.status ApprovalStatus.pending) conflict
  require (not (has_expired approval.expires_at env.now)) conflict
  require (Workflow.awaits_approval workflow.status) conflict
  wait ← lift (row_wait workflow)
  require
      (waits_on_approval wait approval.id
        && str_eq workflow.kind approval.kind
        && workflow.version ==ℤ approval.version)
      conflict
  decision ← lift (handlers.validate_approval_exact workflow.kind workflow.version decision_json)
  deliver_decision env operator actor workflow approval decision

unfoldable pub resolve_approval : Env → Handlers → Operator → ℤ → String → Tx Unit
unfolding resolve_locked operator_actor_id
resolve_approval env handlers operator approval_id decision_json = do
  actor ← lift (operator_actor_id handlers operator)
  named ← reads (λ db. first_where (λ a. a.id ==ℤ approval_id) db.approvals)
  found ← or_fail named not_found
  workflow ← lock_workflow found.workflow_id
  locked ← reads (λ db. first_where (λ a. a.id ==ℤ approval_id) db.approvals)
  approval ← or_fail locked not_found
  resolve_locked env handlers operator actor decision_json workflow approval
