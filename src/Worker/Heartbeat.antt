-- ===== src/Worker/Heartbeat.antt =====
-- T-W2, the renewal of a lease (`heartbeat_once` in
-- durable-workflows/src/runtime/activity_worker.rs). The deadline on the host's clock is left out.
use durable_workflows.Base.{some}
use durable_workflows.Base.Table.{first_where}
use durable_workflows.Base.Outcome.{Result, ok, err, invalid_state, fenced_write}
use durable_workflows.Clock.{DbMillis, checked_plus_millis}
use durable_workflows.Status.Activity.{ActivityStatus}
use durable_workflows.Rows.{ActivityRow}
use durable_workflows.Tx.{
  Tx, lift, reads, or_fail, update_activities, update_attempts, ensure_fenced, ◌>>=◌, ◌>>◌,
}
use durable_workflows.Events.{Env}
use durable_workflows.Worker.{ActivityClaim, leased, unfinished}

pub data Renewed : Type 0 where
  held revoked : Renewed

unfoldable pub renewed_as : ActivityStatus → Result Renewed
renewed_as ActivityStatus.running = ok held
renewed_as ActivityStatus.cancelling = ok revoked
renewed_as _ = err invalid_state

abbrev pub renewed_row : DbMillis → DbMillis → ActivityRow → ActivityRow
renewed_row lease_expires_at now r = record r {
  lease_expires_at = some lease_expires_at;
  updated_at = now;
}

unfoldable pub heartbeat_once : Env → ActivityClaim → Tx Renewed
heartbeat_once env claim = do
  lease_expires_at ←
      or_fail (checked_plus_millis env.now claim.row.lease_duration_millis) invalid_state
  locked ← reads (λ db. first_where (leased claim) db.activities)
  row ← or_fail locked fenced_write
  changed ← update_activities (leased claim) (renewed_row lease_expires_at env.now)
  ensure_fenced changed
  beaten ←
      update_attempts (unfinished claim.row.id claim.attempt_number claim.lease_token)
        (λ a. record a { heartbeat_at = env.now })
  ensure_fenced beaten
  lift (renewed_as row.status)
