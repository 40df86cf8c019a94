-- ===== src/Coordinator.antt =====
-- What a coordinator does to the database (durable-workflows/src/runtime/coordinator.rs): its
-- configuration, its claim, and the fence that its commits and failures stand behind.
pub mod Commit
pub mod Child
pub mod Claim
pub mod Failure
pub mod Fence
pub mod Activate
use durable_workflows.Base.{
  ℕ, Bool, true, false, ◌||◌, ◌&&◌, ◌==◌, if◌then◌else◌, leb, ltb, String, Option, none, some, min,
}
use durable_workflows.Base.Int.{ℤ, pos, ◌==ℤ◌}
use durable_workflows.Base.Outcome.{Result, ok, err, invalid_definition}
use durable_workflows.Policy.{RetryPolicy}
use durable_workflows.Rows.{WorkflowRow}
use durable_workflows.Status.Workflow
use durable_workflows.Status.Workflow.{WorkflowStatus}
use durable_workflows.Tx.{is_text}

-- Durations are whole milliseconds.
pub record CoordinatorConfig : Type 0 where
  pub lease_duration : ℕ
  pub max_activation_attempts : ℕ
  pub activation_retry_policy : RetryPolicy
  pub max_consecutive_continuations : ℕ
  pub continuation_delay : ℕ
  pub step_timeout : ℕ

unfoldable pub validate : CoordinatorConfig → Result (Unit {0})
validate config =
    if config.lease_duration == 0
      || config.max_activation_attempts == 0
      || config.max_consecutive_continuations == 0
      || config.continuation_delay == 0
      || config.step_timeout == 0
    then err invalid_definition
    else if leb config.lease_duration config.step_timeout
    then err invalid_definition
    else ok tt

pub record ClaimedRow : Type 0 where
  pub row : WorkflowRow
  pub lease_token : String

-- `i32::try_from(count).unwrap_or(i32::MAX)`.
abbrev pub to_i32 : ℕ → ℤ
to_i32 count = pos (min count 2_147_483_647)

-- `fenced_workflow!`: the row runs under the claim's token.
abbrev pub fenced : ℤ → String → WorkflowRow → Bool
fenced id token r =
    r.id ==ℤ id && Workflow.same r.status WorkflowStatus.running && is_text r.lease_token token

-- `ActivityCommand`; the durations are whole milliseconds.
pub record ActivityCommand : Type 0 where
  pub kind : String
  pub version : ℤ
  pub topic : String
  pub payload_json : String
  pub operation_key : Option String
  pub max_attempts : ℕ
  pub timeout : ℕ
  pub lease_duration : ℕ
  pub retry_policy : RetryPolicy
  pub continuation_priority : Bool
