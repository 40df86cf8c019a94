-- ===== src/Admin/Retry.antt =====
-- `retry` (durable-workflows/src/admin/control.rs): a dead-lettered activity that blocks its workflow
-- is replaced by a new one, with the same payload or a corrected one.
pub mod Sound
use durable_workflows.Base.{Bool, false, ◌&&◌, if◌then◌else◌, Option, none, some, String}
use durable_workflows.Base.Int.{ℤ, pos, ◌==ℤ◌}
use durable_workflows.Base.Table.{first_where}
use durable_workflows.Base.Outcome.{Result, invalid_state, not_found, conflict}
use durable_workflows.Clock.{DbMillis, duration_millis}
use durable_workflows.Status.Workflow
use durable_workflows.Status.Workflow.{WorkflowStatus}
use durable_workflows.Status.Activity
use durable_workflows.Status.Activity.{ActivityStatus}
use durable_workflows.Status.Waits.{WaitKind}
use durable_workflows.Wait.{Wait}
use durable_workflows.Rows.{WorkflowRow, ActivityRow}
use durable_workflows.Tx.{
  Tx, pure, lift, reads, require, or_fail, update_workflows, insert_activity, ensure_fenced,
  checked_succ, is_int, is_some, ◌>>=◌, ◌>>◌,
}
use durable_workflows.Events.{Env}
use durable_workflows.Parents.{row_wait}
use durable_workflows.Coordinator.{ActivityCommand}
use durable_workflows.Coordinator.Commit.{attempts_i32}
use durable_workflows.Admin.{Operator, Handlers, lock_workflow, append_operator_event}

abbrev waits_on_activity : Option Wait → ℤ → Bool
waits_on_activity (some (Wait.activity id)) a = id ==ℤ a
waits_on_activity wait a = false

abbrev root_activity : ActivityRow → ℤ
root_activity source = elim source.root_activity_id [ none ↦ source.id | some root ↦ root ]

-- A correction has its own key, so that the provider does not answer with the old result.
abbrev operation_key_for : Handlers → Option String → ActivityRow → ℤ → Option String
operation_key_for handlers none source number = source.operation_key
operation_key_for handlers (some payload) source number =
    some (handlers.correction_key (root_activity source) number)

abbrev command_for : Handlers → Option String → ActivityRow → Option String → Result ActivityCommand
command_for handlers none source key =
    handlers.prepare_command_exact source.kind source.version source.payload_json key
command_for handlers (some payload) source key =
    handlers.prepare_command_current source.kind payload key

abbrev pub replacement :
    Env → ActivityRow → ActivityCommand → Option String → ℤ → ℤ → ℤ → ℤ → ActivityRow
replacement env source command key number max_attempts timeout_millis lease_duration_millis =
    record {
      id = env.assigned_id;
      workflow_id = source.workflow_id;
      command_sequence = source.command_sequence;
      replacement_number = number;
      kind = command.kind;
      version = command.version;
      topic = command.topic;
      payload_json = command.payload_json;
      status = ActivityStatus.pending;
      available_at = env.now;
      max_attempts = max_attempts;
      attempt_count = pos 0;
      timeout_millis = timeout_millis;
      lease_duration_millis = lease_duration_millis;
      retry_policy_json = env.encode_policy command.retry_policy.backoff;
      operation_key = key;
      provider_result_json = none;
      last_error_category = none;
      last_error_message = none;
      lease_owner = none;
      lease_token = none;
      lease_expires_at = none;
      root_activity_id = some (root_activity source);
      replaces_activity_id = some source.id;
      created_at = env.now;
      updated_at = env.now;
      completed_at = none;
    }

abbrev pub blocked_on : WorkflowRow → ActivityRow → WorkflowRow → Bool
blocked_on workflow source r =
    r.id ==ℤ workflow.id
    && Workflow.same r.status WorkflowStatus.blocked
    && is_int r.wait_reference_id source.id

abbrev pub rewaiting_row : ℤ → DbMillis → WorkflowRow → WorkflowRow
rewaiting_row activity_id now r = record r {
  status = WorkflowStatus.waiting_activity;
  wait_kind = some WaitKind.activity;
  wait_reference_id = some activity_id;
  available_at = now;
  error_category = none;
  error_message = none;
  updated_at = now;
}

-- The inserted row's id.
replace :
    Env → Operator → WorkflowRow → ActivityRow → ActivityCommand → Option String → ℤ → String → Tx ℤ
replace env operator workflow source command key number event_type = do
  max_attempts ← lift (attempts_i32 command.max_attempts)
  timeout_millis ← lift (duration_millis command.timeout)
  lease_duration_millis ← lift (duration_millis command.lease_duration)
  id ←
      insert_activity (
        replacement env source command key number max_attempts timeout_millis lease_duration_millis)
  changed ← update_workflows (blocked_on workflow source) (rewaiting_row id env.now)
  ensure_fenced changed
  append_operator_event workflow.id event_type operator env.now
  pure id

retry_locked : Env → Handlers → Operator → Option String → WorkflowRow → ActivityRow → Tx ℤ
unfolding replace
retry_locked env handlers operator correction workflow source = do
  require (Workflow.same workflow.status WorkflowStatus.blocked) conflict
  wait ← lift (row_wait workflow)
  require
      (waits_on_activity wait source.id && Activity.same source.status ActivityStatus.dead_lettered)
      conflict
  number ← or_fail (checked_succ source.replacement_number) invalid_state
  let key = operation_key_for handlers correction source number
  command ← lift (command_for handlers correction source key)
  replace env operator workflow source command key number
      (if is_some correction then "activity_corrected_and_retried" else "activity_retried")

-- The workflow of the activity is read before the transaction begins; that column never changes.
unfoldable pub retry : Env → Handlers → Operator → Option String → ℤ → Tx ℤ
unfolding retry_locked
retry env handlers operator correction activity_id = do
  named ← reads (λ db. first_where (λ a. a.id ==ℤ activity_id) db.activities)
  found ← or_fail named not_found
  workflow ← lock_workflow found.workflow_id
  locked ← reads (λ db. first_where (λ a. a.id ==ℤ activity_id) db.activities)
  source ← or_fail locked not_found
  retry_locked env handlers operator correction workflow source
