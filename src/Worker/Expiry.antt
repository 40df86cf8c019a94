-- ===== src/Worker/Expiry.antt =====
-- The reconciliation of expired leases in a T-W1 (`reconcile_expired` in
-- durable-workflows/src/runtime/activity_worker.rs).
pub mod Sound
use durable_workflows.Base.{
  ℕ, Bool, true, false, not, ◌&&◌, ◌||◌, ◌*◌, Option, none, some, List, [], ◌∷◌, ◌++◌, String,
  str_eq, if◌then◌else◌,
}
use durable_workflows.Base.Int.{ℤ, ◌==ℤ◌, leb_ℤ}
use durable_workflows.Base.Table.{first_where, select_where}
use durable_workflows.Base.Outcome
use durable_workflows.Base.Outcome.{Result, ok, err, invalid_state}
use durable_workflows.Clock.{DbMillis}
use durable_workflows.Policy.{RetryPolicy}
use durable_workflows.Status.Workflow
use durable_workflows.Status.Workflow.{WorkflowStatus}
use durable_workflows.Status.Activity
use durable_workflows.Status.Activity.{ActivityStatus}
use durable_workflows.Status.Attempt.{AttemptOutcome}
use durable_workflows.Wait.{u32_try_from}
use durable_workflows.Rows.{WorkflowRow, ActivityRow}
use durable_workflows.Tx.{
  Db, Tx, pure, fail, lift, reads, or_fail, update_activities, update_attempts, ensure_fenced,
  is_int, is_text, is_none, ◌>>=◌, ◌>>◌,
}
use durable_workflows.Events.{Env, activity_lease_recovery, append_activity_history}
use durable_workflows.Temporal.{or_min}
use durable_workflows.Worker.{unfinished, block_workflow, decode_retry_policy}
use durable_workflows.Worker.Revoke.{settle_revoked}
use durable_workflows.Worker.Finish.{retry_at}

-- A lease that has expired, or has no end.
abbrev pub expired : String → DbMillis → ActivityRow → Bool
expired topic now r =
    str_eq r.topic topic
    && Activity.set_contains Activity.lease_holders r.status
    && (is_none r.lease_expires_at || leb_ℤ (or_min r.lease_expires_at) now)

unfoldable pub recovery_at : Env → ActivityRow → Option RetryPolicy → Result DbMillis
recovery_at env row none = ok env.now
recovery_at env row (some retry_policy) =
    Outcome.◌>>=◌ (u32_try_from row.attempt_count)
      (λ attempt. retry_at env retry_policy attempt (activity_lease_recovery row.id attempt))

abbrev pub is_exhausted : ActivityRow → Bool
is_exhausted row = leb_ℤ row.max_attempts row.attempt_count

unfoldable pub available_after : Env → ActivityRow → Result DbMillis
available_after env row =
    if is_exhausted row
    then ok env.now
    else recovery_at env row (decode_retry_policy env row.retry_policy_json)

abbrev pub expired_row : Bool → DbMillis → DbMillis → ActivityRow → ActivityRow
expired_row exhausted available_at now r = record r {
  status = if exhausted then ActivityStatus.dead_lettered else ActivityStatus.pending;
  available_at = available_at;
  last_error_category = some "lease_expired";
  last_error_message = some "activity lease expired";
  lease_owner = none;
  lease_token = none;
  lease_expires_at = none;
  updated_at = now;
  completed_at = if exhausted then some now else none;
}

abbrev pub still_running : ActivityRow → String → ActivityRow → Bool
still_running row token r =
    r.id ==ℤ row.id
    && Activity.same r.status ActivityStatus.running
    && r.attempt_count ==ℤ row.attempt_count
    && is_text r.lease_token token

-- The workflow, as it was locked, waits for this activity.
abbrev pub blocks : WorkflowRow → ActivityRow → Bool
blocks workflow row =
    is_exhausted row
    && Workflow.same workflow.status WorkflowStatus.waiting_activity
    && is_int workflow.wait_reference_id row.id

unfoldable pub block_if_exhausted : Env → WorkflowRow → ActivityRow → Tx Unit
block_if_exhausted env workflow row =
    if blocks workflow row
    then block_workflow row "lease_expired" "activity lease expired" env.now
    else pure tt

unfoldable pub expire_running : Env → WorkflowRow → ActivityRow → Tx Unit
expire_running env workflow row = do
  lease_token ← or_fail row.lease_token invalid_state
  available_at ← lift (available_after env row)
  changed ←
      update_activities (still_running row lease_token)
        (expired_row (is_exhausted row) available_at env.now)
  ensure_fenced changed
  closed ← update_attempts (unfinished row.id row.attempt_count lease_token) (λ a. record a {
    finished_at = some env.now;
    outcome = some AttemptOutcome.lease_expired;
    error_category = some "lease_expired";
    error_message = some "activity lease expired";
  })
  ensure_fenced closed
  append_activity_history row "activity_lease_expired" (some "activity lease expired") env.now
  block_if_exhausted env workflow row

unfoldable pub expire_row : Env → WorkflowRow → ActivityRow → ActivityStatus → Tx Unit
expire_row env workflow row ActivityStatus.running = expire_running env workflow row
expire_row env workflow row ActivityStatus.cancelling =
    settle_revoked row AttemptOutcome.lease_expired "activity lease expired" env.now
expire_row env workflow row s = fail invalid_state

unfoldable pub expire_found : Env → WorkflowRow → Option ActivityRow → Tx Unit
expire_found env workflow none = pure tt
expire_found env workflow (some row) = expire_row env workflow row row.status

-- The candidates whose workflow another transaction holds are left unsettled.
unfoldable pub reconcile_candidate : Env → String → ActivityRow → Option WorkflowRow → Tx (List ℤ)
reconcile_candidate env topic candidate none = pure (candidate.id ∷ [])
reconcile_candidate env topic candidate (some workflow) = do
  row ←
      reads
        (λ db. first_where (λ r. r.id ==ℤ candidate.id && expired topic env.now r) db.activities)
  expire_found env workflow row
  pure []

unfoldable pub reconcile_each : Env → (ℤ → Bool) → String → List ActivityRow → Tx (List ℤ)
reconcile_each env held topic [] = pure []
reconcile_each env held topic (candidate ∷ candidates) = do
  workflow ←
      reads
        (λ db. first_where (λ w. w.id ==ℤ candidate.workflow_id && not (held w.id)) db.workflows)
  unsettled ← reconcile_candidate env topic candidate workflow
  rest ← reconcile_each env held topic candidates
  pure (unsettled ++ rest)

unfoldable pub reconcile_expired : Env → (ℤ → Bool) → String → Tx (List ℤ)
reconcile_expired env held topic = do
  candidates ← reads (λ db. select_where (expired topic env.now) db.activities)
  reconcile_each env held topic candidates
