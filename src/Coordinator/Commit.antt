-- ===== src/Coordinator/Commit.antt =====
-- The commit of an activation's transition (`commit_on_connection`, `commit_wait_transition`
-- and `commit_activity` in durable-workflows/src/runtime/coordinator.rs).
pub mod Sound
use durable_workflows.Base.{
  ℕ, Bool, true, false, not, ◌&&◌, ◌*◌, ◌==◌, Option, none, some, List, String, if◌then◌else◌, ltb,
}
use durable_workflows.Base.Int.{ℤ, pos, leb_ℤ, ◌==ℤ◌}
use durable_workflows.Base.Table.{first_where}
use durable_workflows.Base.Outcome
use durable_workflows.Base.Outcome.{
  Result, ok, err, invalid_state, invalid_definition, fenced_write,
}
use durable_workflows.Clock.{DbMillis, saturating_plus_millis, duration_millis}
use durable_workflows.Policy.{RetryPolicy}
use durable_workflows.Status.Workflow.{WorkflowStatus}
use durable_workflows.Status.Activity.{ActivityStatus}
use durable_workflows.Status.Approval.{ApprovalStatus}
use durable_workflows.Status.Waits.{WaitKind}
use durable_workflows.Wait.{Wait, u32_try_from, kind, reference_id}
use durable_workflows.Rows.{WorkflowRow, WorkflowEventRow, ActivityRow, ApprovalRow}
use durable_workflows.Tx.{
  Db, Tx, pure, lift, reads, or_fail, require, update_workflows, insert_activity, insert_approval,
  append_event, next_event_sequence, ensure_fenced, saturating_succ, is_some, ◌>>=◌, ◌>>◌,
}
use durable_workflows.Events.{Env, append_history}
use durable_workflows.Parents.{output, wake_waiting_parents_on_child_terminal}
use durable_workflows.Coordinator.{CoordinatorConfig, ClaimedRow, ActivityCommand, to_i32, fenced}

abbrev pub fence : ClaimedRow → WorkflowRow → Bool
fence claim = fenced claim.row.id claim.lease_token

-- `streak >= max_consecutive_continuations`.
abbrev pub is_fair : CoordinatorConfig → ClaimedRow → Bool
is_fair config claim =
    leb_ℤ (to_i32 config.max_consecutive_continuations)
      (saturating_succ claim.row.consecutive_continuations)

abbrev pub continue_at : CoordinatorConfig → Bool → DbMillis → Result DbMillis
continue_at config true now =
    Outcome.◌>>=◌ (duration_millis config.continuation_delay)
      (λ delay. ok (saturating_plus_millis now delay))
continue_at config false now = ok now

-- The columns of `Continue`.
abbrev pub continued_row :
    ClaimedRow → ℤ → Bool → String → DbMillis → DbMillis → WorkflowRow → WorkflowRow
continued_row claim delivered fair state_json available_at now r = record r {
  state_json = state_json;
  state_version = saturating_succ claim.row.state_version;
  status = WorkflowStatus.ready;
  available_at = available_at;
  delivered_event_sequence = delivered;
  consecutive_continuations =
      if fair then pos 0 else saturating_succ claim.row.consecutive_continuations;
  activation_attempts = pos 0;
  error_category = none;
  error_message = none;
  lease_owner = none;
  lease_token = none;
  lease_expires_at = none;
  updated_at = now;
}

unfoldable pub commit_continue : Env → CoordinatorConfig → ClaimedRow → ℤ → String → Tx Unit
commit_continue env config claim delivered state_json = do
  available_at ← lift (continue_at config (is_fair config claim) env.now)
  changed ←
      update_workflows (fence claim)
        (continued_row claim delivered (is_fair config claim) state_json available_at env.now)
  ensure_fenced changed
  sequence ← next_event_sequence claim.row.id
  append_event (record {
    workflow_id = claim.row.id;
    sequence = sequence;
    delivery_sequence = some (saturating_succ delivered);
    event_type = "continued";
    metadata_json = none;
    actor_type = some "system";
    actor_id = none;
    reason = none;
    created_at = env.now;
  })

-- The columns of `Complete`.
abbrev pub completed_row : ℤ → String → DbMillis → WorkflowRow → WorkflowRow
completed_row delivered output_json now r = record r {
  status = WorkflowStatus.succeeded;
  result_json = some output_json;
  delivered_event_sequence = delivered;
  consecutive_continuations = pos 0;
  activation_attempts = pos 0;
  error_category = none;
  error_message = none;
  lease_owner = none;
  lease_token = none;
  lease_expires_at = none;
  updated_at = now;
  completed_at = some now;
}

unfoldable pub commit_complete : Env → ClaimedRow → ℤ → String → Tx Unit
commit_complete env claim delivered output_json = do
  changed ← update_workflows (fence claim) (completed_row delivered output_json env.now)
  ensure_fenced changed
  append_history claim.row.id "workflow_succeeded" env.now
  wake_waiting_parents_on_child_terminal env claim.row (output output_json) env.now

-- The columns that every waiting transition sets.
abbrev pub waiting_row :
    ClaimedRow → WorkflowStatus → Wait → String → ℤ → ℤ → DbMillis → WorkflowRow → WorkflowRow
waiting_row claim status wait state_json command delivered now r = record r {
  state_json = state_json;
  state_version = saturating_succ claim.row.state_version;
  status = status;
  wait_kind = some (kind wait);
  wait_reference_id = some (reference_id wait);
  command_sequence = command;
  delivered_event_sequence = delivered;
  consecutive_continuations = pos 0;
  activation_attempts = pos 0;
  error_category = none;
  error_message = none;
  lease_owner = none;
  lease_token = none;
  lease_expires_at = none;
  updated_at = now;
}

abbrev pub sleeping_row :
    ClaimedRow → Wait → String → ℤ → ℤ → ℤ → DbMillis → WorkflowRow → WorkflowRow
sleeping_row claim wait state_json wake_at command delivered now r =
    record (waiting_row claim WorkflowStatus.sleeping wait state_json command delivered now r) {
      available_at = wake_at;
    }

abbrev pub command_of : ClaimedRow → ℤ
command_of claim = saturating_succ claim.row.command_sequence

unfoldable pub commit_sleep : Env → ClaimedRow → ℤ → String → ℤ → Tx Unit
commit_sleep env claim delivered state_json wake_at_millis = do
  command_sequence ← lift (u32_try_from (command_of claim))
  changed ← update_workflows (fence claim) (
      sleeping_row claim (Wait.timer command_sequence) state_json wake_at_millis (command_of claim)
        delivered env.now)
  ensure_fenced changed
  append_history claim.row.id "timer_scheduled" env.now

unfoldable pub lock_fence : ClaimedRow → Tx WorkflowRow
lock_fence claim = do
  locked ← reads (λ db. first_where (fence claim) db.workflows)
  or_fail locked fenced_write

-- The row of `WaitForApproval`.
abbrev pub requested_approval : Env → ClaimedRow → String → Option ℤ → ApprovalRow
requested_approval env claim approval_json expires_at_millis = record {
  id = env.assigned_id;
  workflow_id = claim.row.id;
  command_sequence = command_of claim;
  kind = claim.row.kind;
  version = claim.row.version;
  prompt_metadata_json = approval_json;
  validation_schema_json = "{}";
  validation_version = pos 1;
  status = ApprovalStatus.pending;
  requested_at = env.now;
  expires_at = expires_at_millis;
  decision_payload_json = none;
  decided_by = none;
  operator_reason = none;
  resolved_at = none;
}

unfoldable pub commit_approval : Env → ClaimedRow → ℤ → String → String → Option ℤ → Tx Unit
commit_approval env claim delivered state_json approval_json expires_at_millis = do
  lock_fence claim
  approval_id ← insert_approval (requested_approval env claim approval_json expires_at_millis)
  changed ← update_workflows (fence claim) (
      waiting_row claim WorkflowStatus.waiting_approval (Wait.approval approval_id) state_json
        (command_of claim) delivered env.now)
  ensure_fenced changed
  append_history claim.row.id "approval_requested" env.now

-- `i32::try_from(max_attempts)`.
abbrev pub attempts_i32 : ℕ → Result ℤ
attempts_i32 n = if ltb 2_147_483_647 n then err invalid_definition else ok (pos n)

-- A continuation sorts ahead of other work.
abbrev pub activity_available_at : Env → ActivityCommand → DbMillis
activity_available_at env activity = if activity.continuation_priority then pos 0 else env.now

abbrev pub scheduled_activity : Env → ClaimedRow → ActivityCommand → ℤ → ℤ → ℤ → ActivityRow
scheduled_activity env claim activity max_attempts timeout_millis lease_duration_millis = record {
  id = env.assigned_id;
  workflow_id = claim.row.id;
  command_sequence = command_of claim;
  replacement_number = pos 0;
  kind = activity.kind;
  version = activity.version;
  topic = activity.topic;
  payload_json = activity.payload_json;
  status = ActivityStatus.pending;
  available_at = activity_available_at env activity;
  max_attempts = max_attempts;
  attempt_count = pos 0;
  timeout_millis = timeout_millis;
  lease_duration_millis = lease_duration_millis;
  retry_policy_json = env.encode_policy activity.retry_policy.backoff;
  operation_key = activity.operation_key;
  provider_result_json = none;
  last_error_category = none;
  last_error_message = none;
  lease_owner = none;
  lease_token = none;
  lease_expires_at = none;
  root_activity_id = none;
  replaces_activity_id = none;
  created_at = env.now;
  updated_at = env.now;
  completed_at = none;
}

unfoldable pub commit_activity : Env → ClaimedRow → ℤ → String → ActivityCommand → Tx Unit
commit_activity env claim delivered state_json activity = do
  lock_fence claim
  max_attempts ← lift (attempts_i32 activity.max_attempts)
  timeout_millis ← lift (duration_millis activity.timeout)
  lease_duration_millis ← lift (duration_millis activity.lease_duration)
  activity_id ←
      insert_activity
        (scheduled_activity env claim activity max_attempts timeout_millis lease_duration_millis)
  changed ← update_workflows (fence claim) (
      waiting_row claim WorkflowStatus.waiting_activity (Wait.activity activity_id) state_json
        (command_of claim) delivered env.now)
  ensure_fenced changed
  append_history claim.row.id "activity_scheduled" env.now
