-- ===== src/Rows.antt =====
-- The rows of the engine's tables (durable-workflows/src/persistence/models.rs). Ids, counters and
-- timestamps are their integers. An event row has no `id`: nothing reads it.
use durable_workflows.Base.{Option, String}
use durable_workflows.Base.Int.{ℤ}
use durable_workflows.Clock.{DbMillis}
use durable_workflows.Status.Workflow.{WorkflowStatus}
use durable_workflows.Status.Activity.{ActivityStatus}
use durable_workflows.Status.Approval.{ApprovalStatus}
use durable_workflows.Status.Attempt.{AttemptOutcome}
use durable_workflows.Status.Waits.{WaitKind}
use durable_workflows.Status.ScheduleRun.{ScheduleRunStatus}

pub record WorkflowRow : Type 0 where
  pub id : ℤ
  pub kind : String
  pub version : ℤ
  pub input_json : String
  pub state_json : String
  pub state_version : ℤ
  pub status : WorkflowStatus
  pub result_json : Option String
  pub error_category : Option String
  pub error_message : Option String
  pub wait_kind : Option WaitKind
  pub wait_reference_id : Option ℤ
  pub available_at : DbMillis
  pub activation_attempts : ℤ
  pub max_activation_attempts : ℤ
  pub consecutive_continuations : ℤ
  pub lease_owner : Option String
  pub lease_token : Option String
  pub lease_expires_at : Option DbMillis
  pub deduplication_key : Option String
  pub schedule_run_id : Option ℤ
  pub root_workflow_id : Option ℤ
  pub restarted_from_workflow_id : Option ℤ
  pub parent_workflow_id : Option ℤ
  pub parent_command_sequence : Option ℤ
  pub command_sequence : ℤ
  pub delivered_event_sequence : ℤ
  pub created_at : DbMillis
  pub updated_at : DbMillis
  pub completed_at : Option DbMillis

pub record WorkflowEventRow : Type 0 where
  pub workflow_id : ℤ
  pub sequence : ℤ
  pub delivery_sequence : Option ℤ
  pub event_type : String
  pub metadata_json : Option String
  pub actor_type : Option String
  pub actor_id : Option String
  pub reason : Option String
  pub created_at : DbMillis

pub record ActivityRow : Type 0 where
  pub id : ℤ
  pub workflow_id : ℤ
  pub command_sequence : ℤ
  pub replacement_number : ℤ
  pub kind : String
  pub version : ℤ
  pub topic : String
  pub payload_json : String
  pub status : ActivityStatus
  pub available_at : DbMillis
  pub max_attempts : ℤ
  pub attempt_count : ℤ
  pub timeout_millis : ℤ
  pub lease_duration_millis : ℤ
  pub retry_policy_json : String
  pub operation_key : Option String
  pub provider_result_json : Option String
  pub last_error_category : Option String
  pub last_error_message : Option String
  pub lease_owner : Option String
  pub lease_token : Option String
  pub lease_expires_at : Option DbMillis
  pub root_activity_id : Option ℤ
  pub replaces_activity_id : Option ℤ
  pub created_at : DbMillis
  pub updated_at : DbMillis
  pub completed_at : Option DbMillis

pub record ActivityAttemptRow : Type 0 where
  pub activity_id : ℤ
  pub attempt_number : ℤ
  pub worker_id : String
  pub lease_token : String
  pub started_at : DbMillis
  pub heartbeat_at : DbMillis
  pub finished_at : Option DbMillis
  pub outcome : Option AttemptOutcome
  pub error_category : Option String
  pub error_message : Option String
  pub provider_result_json : Option String

pub record ApprovalRow : Type 0 where
  pub id : ℤ
  pub workflow_id : ℤ
  pub command_sequence : ℤ
  pub kind : String
  pub version : ℤ
  pub prompt_metadata_json : String
  pub validation_schema_json : String
  pub validation_version : ℤ
  pub status : ApprovalStatus
  pub requested_at : DbMillis
  pub expires_at : Option DbMillis
  pub decision_payload_json : Option String
  pub decided_by : Option ℤ
  pub operator_reason : Option String
  pub resolved_at : Option DbMillis

pub record ScheduleRunRow : Type 0 where
  pub id : ℤ
  pub schedule_key : String
  pub local_occurrence : String
  pub scheduled_for : DbMillis
  pub materialized_at : DbMillis
  pub status : ScheduleRunStatus
  pub reason : Option String
  pub actor_id : Option ℤ
  pub workflow_id : Option ℤ
  pub created_at : DbMillis
