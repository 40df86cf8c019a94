-- ===== src/Worker/Claim.antt =====
-- The claim of one candidate in a T-W1 (`claim_locked_candidate` and `quarantine_candidate` in
-- durable-workflows/src/runtime/activity_worker.rs). `registered` tells the local definitions, `held`
-- and `held'` which workflow and activity rows other transactions have locked.
pub mod Sound
pub mod Bounds
use durable_workflows.Base.{
  ℕ, Bool, true, false, not, ◌&&◌, ◌||◌, Option, none, some, String, if◌then◌else◌,
}
use durable_workflows.Base.Int.{ℤ, pos, ◌+ℤ◌, ◌==ℤ◌, leb_ℤ, checked, i32_min, i32_max}
use durable_workflows.Base.Table.{first_where}
use durable_workflows.Base.Outcome.{invalid_state}
use durable_workflows.Clock.{DbMillis, checked_plus_millis}
use durable_workflows.Policy.{RetryPolicy}
use durable_workflows.Status.Workflow
use durable_workflows.Status.Workflow.{WorkflowStatus}
use durable_workflows.Status.Activity
use durable_workflows.Status.Activity.{ActivityStatus}
use durable_workflows.Rows.{WorkflowRow, ActivityRow}
use durable_workflows.Tx.{
  Db, Tx, pure, reads, or_fail, update_activities, insert_attempt, ensure_fenced, is_int,
  checked_succ, ◌>>=◌, ◌>>◌,
}
use durable_workflows.Events.{Env, append_activity_history}
use durable_workflows.Worker.{ActivityClaim, block_workflow, decode_retry_policy}

-- The pending row as it was read.
abbrev pub still_pending : ActivityRow → ActivityRow → Bool
still_pending row r =
    r.id ==ℤ row.id
    && Activity.same r.status ActivityStatus.pending
    && r.attempt_count ==ℤ row.attempt_count

abbrev pub quarantined_row : String → DbMillis → ActivityRow → ActivityRow
quarantined_row message now r = record r {
  status = ActivityStatus.dead_lettered;
  last_error_category = some "invalid_row";
  last_error_message = some message;
  updated_at = now;
  completed_at = some now;
}

unfoldable pub quarantine_candidate : ActivityRow → String → DbMillis → Tx Unit
quarantine_candidate row message now = do
  changed ← update_activities (still_pending row) (quarantined_row message now)
  ensure_fenced changed
  append_activity_history row "activity_quarantined" (some message) now
  block_workflow row "invalid_row" message now

unfoldable pub quarantine : Env → ActivityRow → String → Tx (Option ActivityClaim)
quarantine env row reason = do
  quarantine_candidate row (env.quarantine_message reason row.id) env.now
  pure none

abbrev pub running_row : ℤ → String → String → DbMillis → DbMillis → ActivityRow → ActivityRow
running_row attempt_number worker_id lease_token lease_expires_at now r = record r {
  status = ActivityStatus.running;
  attempt_count = attempt_number;
  lease_owner = some worker_id;
  lease_token = some lease_token;
  lease_expires_at = some lease_expires_at;
  updated_at = now;
}

unfoldable pub start_attempt : Env → String → ActivityRow → RetryPolicy → Tx (Option ActivityClaim)
start_attempt env worker_id row retry_policy = do
  attempt_number ← or_fail (checked_succ row.attempt_count) invalid_state
  lease_expires_at ← or_fail (checked_plus_millis env.now row.lease_duration_millis) invalid_state
  changed ←
      update_activities (still_pending row)
        (running_row attempt_number worker_id env.uuid lease_expires_at env.now)
  ensure_fenced changed
  insert_attempt (record {
    activity_id = row.id;
    attempt_number = attempt_number;
    worker_id = worker_id;
    lease_token = env.uuid;
    started_at = env.now;
    heartbeat_at = env.now;
    finished_at = none;
    outcome = none;
    error_category = none;
    error_message = none;
    provider_result_json = none;
  })
  pure (
      some (record {
        row = record row {
          status = ActivityStatus.running;
          attempt_count = attempt_number;
          lease_token = some env.uuid;
          lease_owner = some worker_id;
          lease_expires_at = some lease_expires_at;
        };
        attempt_number = attempt_number;
        lease_token = env.uuid;
        retry_policy = retry_policy;
      }))

unfoldable pub start_with :
    Env → String → ActivityRow → Option RetryPolicy → Tx (Option ActivityClaim)
start_with env worker_id row none = quarantine env row "invalid_bounds"
start_with env worker_id row (some retry_policy) = start_attempt env worker_id row retry_policy

abbrev pub attempts_exhausted : ActivityRow → Bool
attempts_exhausted row = leb_ℤ row.max_attempts row.attempt_count

abbrev pub invalid_bounds : ActivityRow → Bool
invalid_bounds row =
    leb_ℤ row.timeout_millis (pos 0) || leb_ℤ row.lease_duration_millis row.timeout_millis

unfoldable pub claim_pending :
    Env → (String → ℤ → Bool) → String → Option ActivityRow → Tx (Option ActivityClaim)
claim_pending env registered worker_id none = pure none
claim_pending env registered worker_id (some row) =
    if not (registered row.kind row.version)
    then pure none
    else if attempts_exhausted row
    then quarantine env row "attempt_cap"
    else if invalid_bounds row
    then quarantine env row "invalid_bounds"
    else start_with env worker_id row (decode_retry_policy env row.retry_policy_json)

-- The workflow waits for the candidate, and is not held.
abbrev pub candidate_workflow : (ℤ → Bool) → ℤ → ℤ → WorkflowRow → Bool
candidate_workflow held candidate_id workflow_id w =
    w.id ==ℤ workflow_id
    && Workflow.same w.status WorkflowStatus.waiting_activity
    && is_int w.wait_reference_id candidate_id
    && not (held w.id)

abbrev pub candidate_activity : (ℤ → Bool) → DbMillis → ℤ → ℤ → ActivityRow → Bool
candidate_activity held now candidate_id workflow_id r =
    r.id ==ℤ candidate_id
    && r.workflow_id ==ℤ workflow_id
    && Activity.same r.status ActivityStatus.pending
    && leb_ℤ r.available_at now
    && not (held r.id)

unfoldable pub claim_waited :
    Env
    → (String → ℤ → Bool)
    → String
    → (ℤ → Bool)
    → ℤ
    → ℤ
    → Option WorkflowRow
    → Tx (Option ActivityClaim)
claim_waited env registered worker_id held candidate_id workflow_id none = pure none
claim_waited env registered worker_id held candidate_id workflow_id (some w) = do
  row ←
      reads
        (λ db. first_where (candidate_activity held env.now candidate_id workflow_id) db.activities)
  claim_pending env registered worker_id row

unfoldable pub claim_locked_candidate :
    Env → (String → ℤ → Bool) → String → (ℤ → Bool) → (ℤ → Bool) → ℤ → ℤ → Tx (Option ActivityClaim)
claim_locked_candidate env registered worker_id held held' candidate_id workflow_id = do
  locked_workflow ←
      reads (λ db. first_where (candidate_workflow held candidate_id workflow_id) db.workflows)
  claim_waited env registered worker_id held' candidate_id workflow_id locked_workflow
