-- ===== src/Worker.antt =====
-- What an activity worker does to the database (durable-workflows/src/runtime/activity_worker.rs): its
-- claim of an activity, and the statements that its transactions share.
pub mod Sound
pub mod Claim
pub mod Revoke
pub mod Finish
pub mod Heartbeat
pub mod Expiry
pub mod Fence
use durable_workflows.Base.{
  ℕ, Bool, true, false, ◌&&◌, Option, none, some, String, str_eq, if◌then◌else◌,
}
use durable_workflows.Base.Int.{ℤ, ◌==ℤ◌}
use durable_workflows.Base.Table.{first_where}
use durable_workflows.Base.Outcome.{invalid_state, database, fenced_write}
use durable_workflows.Clock.{DbMillis}
use durable_workflows.Policy.{BackoffPolicy, RetryPolicy, Checked, passed, violated, check}
use durable_workflows.Status.Workflow
use durable_workflows.Status.Workflow.{WorkflowStatus}
use durable_workflows.Status.Activity
use durable_workflows.Status.Activity.{ActivityStatus}
use durable_workflows.Status.Attempt
use durable_workflows.Status.Attempt.{AttemptOutcome}
use durable_workflows.Wait.{u32_try_from}
use durable_workflows.Rows.{WorkflowRow, ActivityRow, ActivityAttemptRow}
use durable_workflows.Tx.{
  Db, Tx, pure, lift, reads, or_fail, require, update_workflows, update_activities, update_attempts,
  append_event, next_event_sequence, ensure_fenced, saturating_succ, is_int, is_text, is_none,
  ◌>>=◌, ◌>>◌,
}
use durable_workflows.Events.{
  Env, activity_succeeded, new_activity_result, append_system_event, append_activity_history,
}

-- The host clock's deadline and the schedule run of a claim are left out.
pub record ActivityClaim : Type 0 where
  pub row : ActivityRow
  pub attempt_number : ℤ
  pub lease_token : String
  pub retry_policy : RetryPolicy

-- `leased_activity!` and `fenced_activity!`: the claim's attempt holds the row, revoked or not; or it
-- holds it and is not revoked.
abbrev pub leased : ActivityClaim → ActivityRow → Bool
leased claim r =
    r.id ==ℤ claim.row.id
    && Activity.set_contains Activity.lease_holders r.status
    && r.attempt_count ==ℤ claim.attempt_number
    && is_text r.lease_token claim.lease_token

abbrev pub fenced_activity : ActivityClaim → ActivityRow → Bool
fenced_activity claim r =
    r.id ==ℤ claim.row.id
    && Activity.same r.status ActivityStatus.running
    && r.attempt_count ==ℤ claim.attempt_number
    && is_text r.lease_token claim.lease_token

-- The row that a workflow waits for is the activity.
abbrev pub waits_for : ActivityRow → WorkflowRow → Bool
waits_for row w =
    w.id ==ℤ row.workflow_id
    && Workflow.same w.status WorkflowStatus.waiting_activity
    && is_int w.wait_reference_id row.id

-- The unfinished attempt of an activity under a token.
abbrev pub unfinished : ℤ → ℤ → String → ActivityAttemptRow → Bool
unfinished activity_id attempt_number token a =
    a.activity_id ==ℤ activity_id
    && a.attempt_number ==ℤ attempt_number
    && str_eq a.lease_token token
    && is_none a.finished_at

-- The stored JSON of a policy, which is checked as it is decoded.
abbrev pub accepted : Checked → Option RetryPolicy
accepted (passed backoff) = some (record { backoff = backoff })
accepted (violated violation) = none

unfoldable pub decoded : Option BackoffPolicy → Option RetryPolicy
unfolding check
decoded none = none
decoded (some backoff) = accepted (check backoff)

unfoldable pub decode_retry_policy : Env → String → Option RetryPolicy
unfolding decoded
decode_retry_policy env json = decoded (env.decode_policy json)

unfoldable pub finish_attempt :
    ActivityClaim
    → AttemptOutcome
    → Option String
    → Option String
    → Option String
    → DbMillis
    → Tx Unit
finish_attempt claim outcome category message provider_result now = do
  changed ← update_attempts (unfinished claim.row.id claim.attempt_number claim.lease_token) (λ a.
      record a {
        finished_at = some now;
        outcome = some outcome;
        error_category = category;
        error_message = message;
        provider_result_json = provider_result;
      })
  ensure_fenced changed

-- `DurableStore::close_attempt` (durable-workflows/src/store.rs).
unfoldable pub close_attempt : ActivityRow → AttemptOutcome → String → DbMillis → Tx Unit
close_attempt activity outcome reason now = do
  lease_token ← or_fail activity.lease_token invalid_state
  changed ← update_attempts (unfinished activity.id activity.attempt_count lease_token) (λ a.
      record a {
        finished_at = some now;
        outcome = some outcome;
        error_category = some (Attempt.as_str outcome);
        error_message = some reason;
      })
  ensure_fenced changed

abbrev pub blocked_row : String → String → DbMillis → WorkflowRow → WorkflowRow
blocked_row category message now w = record w {
  status = WorkflowStatus.blocked;
  error_category = some category;
  error_message = some message;
  updated_at = now;
}

unfoldable pub block_workflow : ActivityRow → String → String → DbMillis → Tx Unit
block_workflow row category message now = do
  changed ← update_workflows (waits_for row) (blocked_row category message now)
  ensure_fenced changed
  append_system_event row.workflow_id none "activity_dead_lettered" none (some message) now

abbrev pub readied_row : DbMillis → WorkflowRow → WorkflowRow
readied_row now w = record w {
  status = WorkflowStatus.ready;
  wait_kind = none;
  wait_reference_id = none;
  available_at = now;
  updated_at = now;
}

unfoldable pub wake_workflow : Env → ActivityClaim → String → DbMillis → Tx Unit
wake_workflow env claim output now = do
  found ← reads (λ db. first_where (λ w. w.id ==ℤ claim.row.workflow_id) db.workflows)
  workflow ← or_fail found database
  require
      (Workflow.same workflow.status WorkflowStatus.waiting_activity
        && is_int workflow.wait_reference_id claim.row.id)
      fenced_write
  sequence ← next_event_sequence claim.row.workflow_id
  command_sequence ← lift (u32_try_from claim.row.command_sequence)
  result ← lift (new_activity_result claim.row.kind claim.row.version output)
  append_event (record {
    workflow_id = claim.row.workflow_id;
    sequence = sequence;
    delivery_sequence = some (saturating_succ workflow.delivered_event_sequence);
    event_type = "activity_succeeded";
    metadata_json = some (env.encode_event (activity_succeeded command_sequence result));
    actor_type = some "system";
    actor_id = none;
    reason = none;
    created_at = now;
  })
  changed ← update_workflows (waits_for claim.row) (readied_row now)
  ensure_fenced changed

-- The columns of an activity that ends here, or that waits for its next attempt.
abbrev pub dead_lettered_row : String → String → DbMillis → ActivityRow → ActivityRow
dead_lettered_row category message now r = record r {
  status = ActivityStatus.dead_lettered;
  last_error_category = some category;
  last_error_message = some message;
  lease_owner = none;
  lease_token = none;
  lease_expires_at = none;
  updated_at = now;
  completed_at = some now;
}

unfoldable pub dead_letter : ActivityClaim → ActivityRow → String → String → DbMillis → Tx Unit
dead_letter claim row category message now = do
  changed ← update_activities (fenced_activity claim) (dead_lettered_row category message now)
  ensure_fenced changed
  finish_attempt claim AttemptOutcome.dead_lettered (some category) (some message) none now
  block_workflow row category message now
