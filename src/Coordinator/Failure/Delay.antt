-- ===== src/Coordinator/Failure/Delay.antt =====
-- When an activation is tried again.
use durable_workflows.Base.{◌≡◌, refl, arith, ℕ, ◌*◌, ◌≤◌, ◌<◌}
use durable_workflows.Base.Int.{ℤ, pos, ◌≤ℤ◌, ◌+ℤ◌}
use durable_workflows.Base.Outcome.{ok}
use durable_workflows.Clock.{DbMillis, saturating_plus_millis, duration_millis}
use durable_workflows.Clock.Bounds.{InRange, saturating_plus_millis_bounds}
use durable_workflows.Policy.{passed, check, deterministic_jitter_percentile}
use durable_workflows.Policy.Delay.{delay_for_attempt_iff, delay_for_attempt_fits}
use durable_workflows.Rows.{WorkflowRow}
use durable_workflows.Tx.{saturating_succ}
use durable_workflows.Events.{Env, workflow_activation}
use durable_workflows.Coordinator.{CoordinatorConfig}
use durable_workflows.Coordinator.Failure.{
  failure_available_at, attempt_of, to_u32, seed_percentile,
}

percentile-le : (a b : ℕ) → deterministic_jitter_percentile a b ≤ 100
unfolding deterministic_jitter_percentile
percentile-le a b = omega arith

attempt_pos : (a : ℤ) → pos 0 ≤ℤ a → 0 < to_u32 (saturating_succ a)
unfolding saturating_succ ◌+ℤ◌
attempt_pos a h = ground arith

duration_millis_ok : (n : ℕ) → n ≤ 9_223_372_036_854_775_807 → duration_millis n ≡ ok (pos n)
unfolding duration_millis
duration_millis_ok n h = ground arith

-- For an accepted retry policy, a clock in range and a counter of failed activations that is not
-- negative, the time of the next activation can always be computed, and it is not in the past.
pub failure_available_at_total :
    (env : Env) (config : CoordinatorConfig) (current : WorkflowRow)
    → check config.activation_retry_policy.backoff ≡ passed config.activation_retry_policy.backoff
    → InRange env.now
    → pos 0 ≤ℤ current.activation_attempts
    → (t : DbMillis) × (failure_available_at env config current ≡ ok t) × (env.now ≤ℤ t) × InRange t
unfolding failure_available_at
failure_available_at_total env config current c r h =
    let attempt : ℕ = to_u32 (attempt_of current) in
    let q : ℕ = seed_percentile env (workflow_activation current.id attempt) in
    let given =
      (delay_for_attempt_iff config.activation_retry_policy attempt q).1
        (attempt_pos current.activation_attempts h, percentile-le _ _) in
    let fits = delay_for_attempt_fits config.activation_retry_policy attempt q given.0 c given.1 in
    let bounds = saturating_plus_millis_bounds env.now (given.0 * 1_000) r in
    (
      saturating_plus_millis env.now (pos (given.0 * 1_000)),
      rw (given.1, duration_millis_ok (given.0 * 1_000) fits) refl,
      bounds.0,
      bounds.1,
    )
