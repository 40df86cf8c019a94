-- ===== src/Events.antt =====
-- Workflow events (durable-workflows/src/transition.rs) and their rows: what a transaction appends
-- to a workflow's history (persistence/events.rs and the `append_*` helpers of runtime/). The
-- environment of a transaction holds what comes from outside: the database clock's sample, a fresh
-- UUID, the id that the database assigns to an inserted row, the JSON encoder and decoder, the digest
-- behind the jitter, `str::trim`, and the texts that `format!` makes of ids and reasons.
use durable_workflows.Base.{ℕ, Option, none, some, String, str_eq, if◌then◌else◌}
use durable_workflows.Base.Int.{ℤ}
use durable_workflows.Base.Outcome.{Result, ok, err, serialization, invalid_state, ok_or}
use durable_workflows.Base.Outcome
use durable_workflows.Clock.{DbMillis}
use durable_workflows.Policy.{BackoffPolicy}
use durable_workflows.Text.{ensure_size}
use durable_workflows.Rows.{WorkflowRow, WorkflowEventRow, ActivityRow}
use durable_workflows.Tx.{
  Tx, lift, next_event_sequence, append_event, checked_succ, or_fail, ◌>>=◌, ◌>>◌,
}

pub record ActivityResult : Type 0 where
  pub kind : String
  pub version : ℤ
  pub output_json : String

pub record ChildResult : Type 0 where
  pub kind : String
  pub version : ℤ
  pub output_json : String

pub record ApprovalResult : Type 0 where
  pub kind : String
  pub version : ℤ
  pub payload_json : String

pub data WorkflowEvent : Type 0 where
  started : WorkflowEvent
  activity_succeeded : (command_sequence : ℕ) → ActivityResult → WorkflowEvent
  child_succeeded : (command_sequence : ℕ) → ChildResult → WorkflowEvent
  child_failed :
      (command_sequence : ℕ) (kind : String) (version : ℤ) (category message : String)
      → WorkflowEvent
  timer_fired : (command_sequence : ℕ) → WorkflowEvent
  approval_resolved : (command_sequence : ℕ) → ApprovalResult → WorkflowEvent
  approval_expired : (command_sequence : ℕ) → WorkflowEvent
  continued : WorkflowEvent

-- The seeds that the engine hashes for a jitter percentile.
pub data JitterSeed : Type 0 where
  workflow_activation : (id : ℤ) (attempt : ℕ) → JitterSeed
  activity_retry : (id : ℤ) (attempt : ℕ) → JitterSeed
  activity_lease_recovery : (id : ℤ) (attempt : ℕ) → JitterSeed

pub record Env : Type 0 where
  pub now : DbMillis
  pub uuid : String
  pub assigned_id : ℤ
  pub encode_event : WorkflowEvent → String
  pub decode_event : String → Option WorkflowEvent
  pub encode_policy : BackoffPolicy → String
  pub decode_policy : String → Option BackoffPolicy
  pub digest_byte0 : JitterSeed → ℕ
  pub digest_byte1 : JitterSeed → ℕ
  pub quarantine_message : String → ℤ → String
  pub child_key : ℤ → ℤ → String
  pub cascade_reason : ℤ → String → String
  pub superseded_message : ℤ → ℤ → ℤ → String
  pub reattached_metadata : ℤ → ℤ → String
  pub reattached_reason : ℤ → ℤ → String
  pub trim : String → String

abbrev pub max_output_bytes : ℕ
max_output_bytes = 65_536

abbrev pub max_event_metadata_bytes : ℕ
max_event_metadata_bytes = 16_384

abbrev pub max_error_reason_bytes : ℕ
max_error_reason_bytes = 2_048

-- `ActivityResult::new` and `ChildResult::new`.
unfoldable pub new_activity_result : String → ℤ → String → Result ActivityResult
new_activity_result kind version output_json =
    Outcome.◌>>◌ (ensure_size output_json max_output_bytes)
      (ok (record { kind = kind; version = version; output_json = output_json }))

unfoldable pub new_child_result : String → ℤ → String → Result ChildResult
new_child_result kind version output_json =
    Outcome.◌>>◌ (ensure_size output_json max_output_bytes)
      (ok (record { kind = kind; version = version; output_json = output_json }))

-- The two texts without metadata, and the stored JSON of every other event.
unfoldable pub decode_event : Env → WorkflowEventRow → Result WorkflowEvent
decode_event env event =
    if str_eq event.event_type "started"
    then ok started
    else if str_eq event.event_type "continued"
    then ok continued
    else Outcome.◌>>=◌ (ok_or event.metadata_json invalid_state)
        (λ json. ok_or (env.decode_event json) serialization)

-- An event that the engine itself writes, at the next sequence of its workflow.
unfoldable pub append_system_event :
    ℤ → Option ℤ → String → Option String → Option String → DbMillis → Tx Unit
append_system_event workflow_id delivery_sequence event_type metadata_json reason now = do
  sequence ← next_event_sequence workflow_id
  append_event (record {
    workflow_id = workflow_id;
    sequence = sequence;
    delivery_sequence = delivery_sequence;
    event_type = event_type;
    metadata_json = metadata_json;
    actor_type = some "system";
    actor_id = none;
    reason = reason;
    created_at = now;
  })

-- The coordinator's `append_history`.
unfoldable pub append_history : ℤ → String → DbMillis → Tx Unit
unfolding append_system_event
append_history workflow_id event_type created_at =
    append_system_event workflow_id none event_type none none created_at

-- The worker's `append_activity_history`.
unfoldable pub append_activity_history : ActivityRow → String → Option String → DbMillis → Tx Unit
unfolding append_system_event
append_activity_history row event_type reason now =
    append_system_event row.workflow_id none event_type none reason now

-- The temporal materializers' `append_delivery_event`.
unfoldable pub append_delivery_event :
    Env → WorkflowRow → String → WorkflowEvent → DbMillis → Tx Unit
unfolding append_system_event
append_delivery_event env workflow event_type event now = do
  lift (ensure_size (env.encode_event event) max_event_metadata_bytes)
  delivery_sequence ← or_fail (checked_succ workflow.delivered_event_sequence) invalid_state
  append_system_event workflow.id (some delivery_sequence) event_type
      (some (env.encode_event event)) none now
