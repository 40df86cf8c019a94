-- ===== src/Worker/Finish.antt =====
-- T-W3, the end of an attempt (`finish_on_connection` in
-- durable-workflows/src/runtime/activity_worker.rs).
pub mod Sound
use durable_workflows.Base.{ℕ, Bool, true, false, ◌*◌, Option, none, some, String, if◌then◌else◌}
use durable_workflows.Base.Int.{ℤ, leb_ℤ, ◌==ℤ◌}
use durable_workflows.Base.Table.{first_where}
use durable_workflows.Base.Outcome
use durable_workflows.Base.Outcome.{Result, ok, err, invalid_state, database, fenced_write, ok_or}
use durable_workflows.Clock.{DbMillis, saturating_plus_millis, duration_millis}
use durable_workflows.Policy.{RetryPolicy, delay_for_attempt}
use durable_workflows.Status.Activity.{ActivityStatus}
use durable_workflows.Status.Attempt
use durable_workflows.Status.Attempt.{AttemptOutcome}
use durable_workflows.Wait.{u32_try_from}
use durable_workflows.Rows.{ActivityRow}
use durable_workflows.Tx.{
  Db, Tx, pure, fail, lift, reads, or_fail, update_activities, ensure_fenced, ◌>>=◌, ◌>>◌,
}
use durable_workflows.Events.{Env, activity_retry, JitterSeed, append_activity_history}
use durable_workflows.Coordinator.Failure.{seed_percentile}
use durable_workflows.Worker.{
  ActivityClaim, leased, fenced_activity, finish_attempt, dead_letter, wake_workflow,
}
use durable_workflows.Worker.Revoke.{settle_revoked}

-- An error is its category and its message.
pub data ExecutionOutcome : Type 0 where
  succeeded : (output : String) → ExecutionOutcome
  retryable permanent : (category message : String) → ExecutionOutcome
  revoked : ExecutionOutcome

abbrev pub or_empty : Option String → String
or_empty none = ""
or_empty (some s) = s

unfoldable pub finish_revoked : Env → ActivityRow → Tx Unit
finish_revoked env row = do
  category ← or_fail row.last_error_category invalid_state
  outcome ← lift (Attempt.try_from category)
  settle_revoked row outcome (or_empty row.last_error_message) env.now

abbrev pub succeeded_row : String → DbMillis → ActivityRow → ActivityRow
succeeded_row output now r = record r {
  status = ActivityStatus.succeeded;
  provider_result_json = some output;
  last_error_category = none;
  last_error_message = none;
  lease_owner = none;
  lease_token = none;
  lease_expires_at = none;
  updated_at = now;
  completed_at = some now;
}

unfoldable pub finish_succeeded : Env → ActivityClaim → String → Tx Unit
finish_succeeded env claim output = do
  changed ← update_activities (fenced_activity claim) (succeeded_row output env.now)
  ensure_fenced changed
  finish_attempt claim AttemptOutcome.succeeded none none (some output) env.now
  wake_workflow env claim output env.now

abbrev pub retried_row : String → String → DbMillis → DbMillis → ActivityRow → ActivityRow
retried_row category message available_at now r = record r {
  status = ActivityStatus.pending;
  available_at = available_at;
  last_error_category = some category;
  last_error_message = some message;
  lease_owner = none;
  lease_token = none;
  lease_expires_at = none;
  updated_at = now;
}

-- When an attempt may follow, under a policy and the seed of its jitter.
unfoldable pub retry_at : Env → RetryPolicy → ℕ → JitterSeed → Result DbMillis
retry_at env retry_policy attempt seed =
    Outcome.◌>>=◌ (delay_for_attempt retry_policy attempt (seed_percentile env seed)) (λ seconds.
      Outcome.◌>>=◌ (duration_millis (seconds * 1_000))
        (λ delay. ok (saturating_plus_millis env.now delay)))

unfoldable pub retry_activity : Env → ActivityClaim → String → String → Tx Unit
retry_activity env claim category message = do
  attempt ← lift (u32_try_from claim.attempt_number)
  available_at ←
      lift (retry_at env claim.retry_policy attempt (activity_retry claim.row.id attempt))
  changed ←
      update_activities (fenced_activity claim) (retried_row category message available_at env.now)
  ensure_fenced changed
  finish_attempt claim AttemptOutcome.retryable_failure (some category) (some message) none env.now
  append_activity_history claim.row "activity_retry_scheduled" (some message) env.now

unfoldable pub finish_running : Env → ActivityClaim → ActivityRow → ExecutionOutcome → Tx Unit
finish_running env claim row (succeeded output) = finish_succeeded env claim output
finish_running env claim row (retryable category message) =
    if leb_ℤ claim.row.max_attempts claim.attempt_number
    then dead_letter claim row category message env.now
    else retry_activity env claim category message
finish_running env claim row (permanent category message) =
    dead_letter claim row category message env.now
finish_running env claim row revoked = fail invalid_state

unfoldable pub finish_as :
    Env → ActivityClaim → ActivityRow → ActivityStatus → ExecutionOutcome → Tx Unit
finish_as env claim row ActivityStatus.cancelling outcome = finish_revoked env row
finish_as env claim row ActivityStatus.running outcome = finish_running env claim row outcome
finish_as env claim row s outcome = fail invalid_state

unfoldable pub finish_on_connection : Env → ActivityClaim → ExecutionOutcome → Tx Unit
finish_on_connection env claim outcome = do
  found ← reads (λ db. first_where (λ w. w.id ==ℤ claim.row.workflow_id) db.workflows)
  or_fail found database
  locked ← reads (λ db. first_where (leased claim) db.activities)
  row ← or_fail locked fenced_write
  finish_as env claim row row.status outcome
