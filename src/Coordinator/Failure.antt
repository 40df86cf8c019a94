-- ===== src/Coordinator/Failure.antt =====
-- The bounded failure of an activation (`record_activation_failure` in
-- durable-workflows/src/runtime/coordinator.rs).
pub mod Sound
pub mod Delay
use durable_workflows.Base.{
  ℕ, Bool, true, false, ◌*◌, Option, none, some, String, if◌then◌else◌, min,
}
use durable_workflows.Base.Int.{ℤ, pos, negsuc, leb_ℤ, ltb_ℤ}
use durable_workflows.Base.Table.{first_where}
use durable_workflows.Base.Outcome.{Result, ok, err, fenced_write}
use durable_workflows.Base.Outcome
use durable_workflows.Clock.{DbMillis, saturating_plus_millis, duration_millis}
use durable_workflows.Policy.{deterministic_jitter_percentile, delay_for_attempt}
use durable_workflows.Status.Workflow.{WorkflowStatus}
use durable_workflows.Text.{truncate_utf8}
use durable_workflows.Rows.{WorkflowRow}
use durable_workflows.Tx.{
  Db, Tx, pure, lift, reads, or_fail, update_workflows, ensure_fenced, saturating_succ, ◌>>=◌, ◌>>◌,
}
use durable_workflows.Events.{Env, JitterSeed, workflow_activation, append_history}
use durable_workflows.Parents.{failure, wake_waiting_parents_on_child_terminal}
use durable_workflows.Coordinator.{CoordinatorConfig, ClaimedRow, to_i32, fenced}

-- `WorkflowError::new`.
pub record WorkflowError : Type 0 where
  pub category : String
  pub message : String

unfoldable pub new_error : String → String → WorkflowError
new_error category message = record {
  category = truncate_utf8 category 64;
  message = truncate_utf8 message 2_048;
}

-- `u32::try_from(attempt).unwrap_or(u32::MAX)`.
abbrev pub to_u32 : ℤ → ℕ
to_u32 (pos n) = min n 4_294_967_295
to_u32 (negsuc n) = 4_294_967_295

abbrev pub min_ℤ : ℤ → ℤ → ℤ
min_ℤ a b = if leb_ℤ a b then a else b

abbrev pub seed_percentile : Env → JitterSeed → ℕ
seed_percentile env seed =
    deterministic_jitter_percentile (env.digest_byte0 seed) (env.digest_byte1 seed)

-- The attempt that fails now, the most that are allowed, and whether this was the last.
abbrev pub attempt_of : WorkflowRow → ℤ
attempt_of current = saturating_succ current.activation_attempts

abbrev pub max_activation : CoordinatorConfig → WorkflowRow → ℤ
max_activation config current =
    min_ℤ current.max_activation_attempts (to_i32 config.max_activation_attempts)

abbrev pub is_exhausted : CoordinatorConfig → WorkflowRow → Bool
is_exhausted config current = leb_ℤ (max_activation config current) (attempt_of current)

-- When the next attempt may start.
unfoldable pub failure_available_at : Env → CoordinatorConfig → WorkflowRow → Result DbMillis
failure_available_at env config current =
    let attempt_number = to_u32 (attempt_of current) in
    Outcome.◌>>=◌
      (delay_for_attempt config.activation_retry_policy attempt_number
        (seed_percentile env (workflow_activation current.id attempt_number)))
      (λ seconds.
        Outcome.◌>>=◌ (duration_millis (seconds * 1_000))
          (λ delay. ok (saturating_plus_millis env.now delay)))

abbrev pub failed_row : Bool → ℤ → DbMillis → WorkflowError → DbMillis → WorkflowRow → WorkflowRow
failed_row exhausted attempt available_at error now r = record r {
  status = if exhausted then WorkflowStatus.failed else WorkflowStatus.ready;
  activation_attempts = attempt;
  available_at = available_at;
  error_category = some error.category;
  error_message = some error.message;
  lease_owner = none;
  lease_token = none;
  lease_expires_at = none;
  updated_at = now;
  completed_at = if exhausted then some now else none;
}

unfoldable pub wake_if_exhausted : Env → Bool → WorkflowRow → WorkflowError → Tx Unit
wake_if_exhausted env exhausted current error =
    if exhausted
    then wake_waiting_parents_on_child_terminal env current (failure error.category error.message)
        env.now
    else pure tt

unfoldable pub fail_current :
    Env → CoordinatorConfig → ClaimedRow → WorkflowError → WorkflowRow → Tx Unit
fail_current env config claim error current = do
  available_at ← lift (failure_available_at env config current)
  changed ←
      update_workflows (fenced current.id claim.lease_token)
        (failed_row (is_exhausted config current) (attempt_of current) available_at error env.now)
  ensure_fenced changed
  append_history current.id
      (if is_exhausted config current then "activation_exhausted" else "activation_failed") env.now
  wake_if_exhausted env (is_exhausted config current) current error

unfoldable pub record_activation_failure : Env → CoordinatorConfig → ClaimedRow → String → Tx Unit
record_activation_failure env config claim message = do
  locked ← reads (λ db. first_where (fenced claim.row.id claim.lease_token) db.workflows)
  current ← or_fail locked fenced_write
  fail_current env config claim (new_error "activation" message) current
