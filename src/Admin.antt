-- ===== src/Admin.antt =====
-- What an operator does (durable-workflows/src/admin/control.rs): each control locks the rows that it
-- changes, checks them, changes them and appends an event in the operator's name. The handlers that
-- prepare a start or a command and that check a decision are the application's, so they are arguments.
pub mod Pause
pub mod Resume
pub mod Retry
pub mod Resolve
pub mod Restart
pub mod Sound
use durable_workflows.Base.{ℕ, not, ◌||◌, ◌==◌, ltb, if◌then◌else◌, Option, none, some, String}
use durable_workflows.Base.Int.{ℤ, pos, leb_ℤ, ◌==ℤ◌}
use durable_workflows.Base.Table.{first_where}
use durable_workflows.Base.Outcome
use durable_workflows.Base.Outcome.{Result, ok, err, invalid_definition, not_found, conflict, ok_or}
use durable_workflows.Clock.{DbMillis}
use durable_workflows.Status.Workflow
use durable_workflows.Text.{len}
use durable_workflows.Rows.{WorkflowRow}
use durable_workflows.Tx.{
  Tx, reads, require, or_fail, append_event, next_event_sequence, ◌>>=◌, ◌>>◌,
}
use durable_workflows.Events.{Env, max_error_reason_bytes}
use durable_workflows.Coordinator.{ActivityCommand}
use durable_workflows.Store.{PreparedStart}
use durable_workflows.Store.Cancel.{cancel_locked_workflow}

pub record Operator : Type 0 where
  pub actor_id : String
  pub reason : String

abbrev pub max_actor_id_bytes : ℕ
max_actor_id_bytes = 191

-- `Operator::new` (durable-workflows/src/admin/types.rs).
unfoldable pub new_operator : Env → String → String → Result Operator
unfolding len
new_operator env actor_id reason =
    let trimmed = env.trim reason in
    if len actor_id == 0 || ltb max_actor_id_bytes (len actor_id)
    then err invalid_definition
    else if len trimmed == 0 || ltb max_error_reason_bytes (len trimmed)
    then err invalid_definition
    else ok (record { actor_id = actor_id; reason = trimmed })

-- The registries' answers, and the two formats of an operator's control.
pub record Handlers : Type 0 where
  pub prepare_start_exact : String → ℤ → String → Result PreparedStart
  pub prepare_start_current : String → String → Result PreparedStart
  pub prepare_command_exact : String → ℤ → String → Option String → Result ActivityCommand
  pub prepare_command_current : String → String → Option String → Result ActivityCommand
  pub validate_approval_exact : String → ℤ → String → Result String
  pub correction_key : ℤ → ℤ → String
  pub parse_i32 : String → Option ℤ

-- The approval controls want a positive number.
unfoldable pub operator_actor_id : Handlers → Operator → Result ℤ
operator_actor_id handlers operator =
    Outcome.◌>>=◌ (ok_or (handlers.parse_i32 operator.actor_id) invalid_definition)
      (λ actor. if leb_ℤ actor (pos 0) then err invalid_definition else ok actor)

unfoldable pub lock_workflow : ℤ → Tx WorkflowRow
lock_workflow workflow_id = do
  found ← reads (λ db. first_where (λ r. r.id ==ℤ workflow_id) db.workflows)
  or_fail found not_found

unfoldable pub append_operator_event : ℤ → String → Operator → DbMillis → Tx Unit
append_operator_event workflow_id event_type operator now = do
  sequence ← next_event_sequence workflow_id
  append_event (record {
    workflow_id = workflow_id;
    sequence = sequence;
    delivery_sequence = none;
    event_type = event_type;
    metadata_json = none;
    actor_type = some "operator";
    actor_id = some operator.actor_id;
    reason = some operator.reason;
    created_at = now;
  })

cancel_unless_terminal : Env → Operator → WorkflowRow → Tx Unit
cancel_unless_terminal env operator workflow = do
  require (not (Workflow.is_terminal workflow.status)) conflict
  cancel_locked_workflow env workflow operator.reason (some operator.actor_id) env.now

-- Unlike the application's cancellation this refuses a terminal workflow.
unfoldable pub cancel_workflow : Env → Operator → ℤ → Tx Unit
unfolding cancel_unless_terminal
cancel_workflow env operator workflow_id = do
  workflow ← lock_workflow workflow_id
  cancel_unless_terminal env operator workflow
