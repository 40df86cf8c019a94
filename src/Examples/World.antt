-- ===== src/Examples/World.antt =====
-- A small database, and a run of the engine on it.
use durable_workflows.Base.{
  All, ℕ, ◌≡◌, refl, Option, none, some, List, [], ◌∷◌, String, true, false, ◌==◌,
}
use durable_workflows.Base.Int.{ℤ, pos}
use durable_workflows.Base.Outcome.{ok}
use durable_workflows.Clock.{DbMillis}
use durable_workflows.Policy.{fixed_delay, exponential_delay}
use durable_workflows.Status.Workflow.{WorkflowStatus}
use durable_workflows.Status.Activity.{ActivityStatus}
use durable_workflows.Status.Attempt.{AttemptOutcome}
use durable_workflows.Status.Approval.{ApprovalStatus}
use durable_workflows.Status.Waits.{WaitKind}
use durable_workflows.Rows.{
  WorkflowRow, WorkflowEventRow, ActivityRow, ActivityAttemptRow, ApprovalRow,
}
use durable_workflows.Tx.{Db, committed}
use durable_workflows.Events.{Env, WorkflowEvent, started}
use durable_workflows.Sound.{IsSound, WorkflowOk}
use durable_workflows.Coordinator.{CoordinatorConfig, ClaimedRow}
use durable_workflows.Coordinator.Child.{complete, commit_transition, commit_on_connection}
use durable_workflows.Coordinator.Commit.{commit_complete}
use durable_workflows.Engine.{Reach, begin, next, commits}

-- Events and policies are encoded as one text; the clock stands at 1000.
abbrev pub env : Env
env = record {
  now = pos 1_000;
  uuid = "token-2";
  assigned_id = pos 90;
  encode_event = λ e. "{}";
  decode_event = λ s. some started;
  encode_policy = λ p. "fixed";
  decode_policy = λ s. some (fixed_delay 5);
  digest_byte0 = λ s. 7;
  digest_byte1 = λ s. 1;
  quarantine_message = λ r i. r;
  child_key = λ parent command. "child:key";
  cascade_reason = λ parent reason. reason;
  superseded_message = λ old new version. "superseded";
  reattached_metadata = λ old new. "{}";
  reattached_reason = λ old new. "superseded";
  trim = λ s. s;
}

abbrev expiry_of : Option String → Option DbMillis
expiry_of none = none
expiry_of (some t) = some (pos 2_000)

abbrev workflow :
    ℤ → WorkflowStatus → Option WaitKind → Option ℤ → Option String → Option DbMillis → WorkflowRow
workflow id status kind reference token completed_at = record {
  id = id;
  kind = "order";
  version = pos 1;
  input_json = "{}";
  state_json = "{}";
  state_version = pos 1;
  status = status;
  result_json = none;
  error_category = none;
  error_message = none;
  wait_kind = kind;
  wait_reference_id = reference;
  available_at = pos 900;
  activation_attempts = pos 0;
  max_activation_attempts = pos 8;
  consecutive_continuations = pos 0;
  lease_owner = token;
  lease_token = token;
  lease_expires_at = expiry_of token;
  deduplication_key = none;
  schedule_run_id = none;
  root_workflow_id = none;
  restarted_from_workflow_id = none;
  parent_workflow_id = none;
  parent_command_sequence = none;
  command_sequence = pos 3;
  delivered_event_sequence = pos 1;
  created_at = pos 100;
  updated_at = pos 900;
  completed_at = completed_at;
}

abbrev pub running : WorkflowRow
running = workflow (pos 1) WorkflowStatus.running none none (some "token-1") none

abbrev pub paused : WorkflowRow
paused = workflow (pos 2) WorkflowStatus.paused (some WaitKind.child) (some (pos 1)) none none

abbrev pub ended : WorkflowRow
ended = workflow (pos 3) WorkflowStatus.failed none none none (some (pos 800))

abbrev pub waiting : WorkflowRow
waiting =
    workflow (pos 4) WorkflowStatus.waiting_activity (some WaitKind.activity) (some (pos 10)) none
      none

abbrev activity : ℤ → ActivityStatus → Option DbMillis → ActivityRow
activity id status completed_at = record {
  id = id;
  workflow_id = pos 4;
  command_sequence = pos 3;
  replacement_number = pos 0;
  kind = "charge";
  version = pos 1;
  topic = "payments";
  payload_json = "{}";
  status = status;
  available_at = pos 900;
  max_attempts = pos 3;
  attempt_count = pos 1;
  timeout_millis = pos 100;
  lease_duration_millis = pos 500;
  retry_policy_json = "fixed";
  operation_key = none;
  provider_result_json = none;
  last_error_category = none;
  last_error_message = none;
  lease_owner = none;
  lease_token = none;
  lease_expires_at = none;
  root_activity_id = none;
  replaces_activity_id = none;
  created_at = pos 100;
  updated_at = pos 900;
  completed_at = completed_at;
}

abbrev pub pending : ActivityRow
pending = activity (pos 10) ActivityStatus.pending none

abbrev pub done : ActivityRow
done = activity (pos 11) ActivityStatus.succeeded (some (pos 700))

abbrev pub finished : ActivityAttemptRow
finished = record {
  activity_id = pos 10;
  attempt_number = pos 1;
  worker_id = "worker";
  lease_token = "token-0";
  started_at = pos 200;
  heartbeat_at = pos 300;
  finished_at = some (pos 400);
  outcome = some AttemptOutcome.retryable_failure;
  error_category = some "timeout";
  error_message = some "no answer";
  provider_result_json = none;
}

abbrev pub decided : ApprovalRow
decided = record {
  id = pos 20;
  workflow_id = pos 3;
  command_sequence = pos 1;
  kind = "order";
  version = pos 1;
  prompt_metadata_json = "{}";
  validation_schema_json = "{}";
  validation_version = pos 1;
  status = ApprovalStatus.resolved;
  requested_at = pos 100;
  expires_at = none;
  decision_payload_json = some "{}";
  decided_by = some (pos 5);
  operator_reason = none;
  resolved_at = some (pos 300);
}

abbrev pub started_event : WorkflowEventRow
started_event = record {
  workflow_id = pos 1;
  sequence = pos 1;
  delivery_sequence = some (pos 1);
  event_type = "started";
  metadata_json = none;
  actor_type = some "system";
  actor_id = none;
  reason = none;
  created_at = pos 100;
}

abbrev pub world : Db
world = record {
  workflows = running ∷ paused ∷ ended ∷ waiting ∷ [];
  events = started_event ∷ [];
  activities = pending ∷ done ∷ [];
  attempts = finished ∷ [];
  approvals = decided ∷ [];
  schedule_runs = [];
}

workflow_ok : All WorkflowOk world.workflows
workflow_ok = (
  record { lease = refl; wait = refl; paired = refl; timer = λ h. cc; completed = refl },
  (
    record { lease = refl; wait = refl; paired = refl; timer = λ h. cc; completed = refl },
    (
      record { lease = refl; wait = refl; paired = refl; timer = λ h. cc; completed = refl },
      (record { lease = refl; wait = refl; paired = refl; timer = λ h. cc; completed = refl }, tt),
    ),
  ),
)

pub world-IsSound : IsSound world
world-IsSound = (
  workflow_ok,
  (record { lease = refl; completed = refl }, (record { lease = refl; completed = refl }, tt)),
)

abbrev pub claim : ClaimedRow
claim = record { row = running; lease_token = "token-1" }

abbrev pub config : CoordinatorConfig
config = record {
  lease_duration = 30_000;
  max_activation_attempts = 8;
  activation_retry_policy = record { backoff = exponential_delay 1 60 20 };
  max_consecutive_continuations = 16;
  continuation_delay = 100;
  step_timeout = 20_000;
}

-- The running workflow completes, and the paused one that waits for it is told.
unfoldable pub after : Db
unfolding commit_on_connection commit_transition commit_complete
after =
    committed (commit_on_connection env config claim started_event (complete "\"done\"") world)
      world

world_commits :
    commit_on_connection env config claim started_event (complete "\"done\"") world ≡ ok (tt, after)
unfolding after commit_complete durable_workflows.Tx.◌>>=◌ durable_workflows.Tx.update_workflows
    durable_workflows.Tx.ensure_fenced durable_workflows.Tx.require
    durable_workflows.Events.append_history durable_workflows.Tx.next_event_sequence
    durable_workflows.Tx.or_fail durable_workflows.Base.Int.◌+ℤ◌ durable_workflows.Tx.append_event
    durable_workflows.Parents.wake_waiting_parents_on_child_terminal durable_workflows.Wait.parse
    durable_workflows.Events.new_child_result durable_workflows.Text.ensure_size
    durable_workflows.Text.width durable_workflows.Tx.checked_succ
world_commits = refl

pub world_reaches : Reach world after
world_reaches =
    next begin (commits env config claim started_event (complete "\"done\"") (tt, world_commits))
