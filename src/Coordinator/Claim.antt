-- ===== src/Coordinator/Claim.antt =====
-- The claim of a workflow (`claim_row` in durable-workflows/src/runtime/coordinator.rs). Its
-- pages of 32 expired candidates, each after the last one's key, go through the expired rows in the
-- order of `(lease_expires_at, id)`; a row that another transaction holds is passed over, so the first
-- that is not held is recovered.
pub mod Sound
pub mod Found
use durable_workflows.Base.{
  ℕ, zero, suc, Bool, true, false, not, ◌&&◌, ◌||◌, ◌==◌, Option, none, some, List, [], ◌∷◌, String,
  str_eq, if◌then◌else◌,
}
use durable_workflows.Base.Int.{ℤ, pos, ◌==ℤ◌, leb_ℤ}
use durable_workflows.Base.Table.{first_by, first_where, select_where, order_by, limit}
use durable_workflows.Base.Outcome.{invalid_definition}
use durable_workflows.Clock.{DbMillis, checked_plus_millis, duration_millis}
use durable_workflows.Status.Workflow
use durable_workflows.Status.Workflow.{WorkflowStatus}
use durable_workflows.Rows.{WorkflowRow}
use durable_workflows.Tx.{
  Db, Tx, pure, lift, reads, or_fail, update_workflows, ensure_fenced, eq_int, is_some, ◌>>=◌, ◌>>◌,
}
use durable_workflows.Events.{Env, append_history}
use durable_workflows.Temporal.{precedes, or_min, sooner, unheld}
use durable_workflows.Coordinator.{CoordinatorConfig, ClaimedRow}

-- `status = running AND lease_expires_at <= now`.
abbrev pub lease_expired : DbMillis → WorkflowRow → Bool
lease_expired now r =
    Workflow.same r.status WorkflowStatus.running
    && is_some r.lease_expires_at
    && leb_ℤ (or_min r.lease_expires_at) now

abbrev pub expires_first : WorkflowRow → WorkflowRow → Bool
expires_first r s = precedes (or_min r.lease_expires_at) r.id (or_min s.lease_expires_at) s.id

-- SQL `lease_token = value` where the value may be NULL.
abbrev pub eq_text : Option String → Option String → Bool
eq_text x none = false
eq_text none (some v) = false
eq_text (some x) (some v) = str_eq x v

abbrev pub recovered_row : DbMillis → WorkflowRow → WorkflowRow
recovered_row now r = record r {
  status = WorkflowStatus.ready;
  available_at = now;
  lease_owner = none;
  lease_token = none;
  lease_expires_at = none;
  updated_at = now;
}

unfoldable pub recover : Env → Option WorkflowRow → Tx Unit
recover env none = pure tt
recover env (some expired) = do
  changed ←
      update_workflows
        (λ r.
          r.id ==ℤ expired.id
          && Workflow.same r.status WorkflowStatus.running
          && eq_text r.lease_token expired.lease_token)
        (recovered_row env.now)
  ensure_fenced changed
  append_history expired.id "lease_recovered" env.now

abbrev pub defined : List (String × ℤ) → WorkflowRow → Bool
defined [] r = false
defined (d ∷ ds) r = str_eq r.kind d.0 && r.version ==ℤ d.1 || defined ds r

-- `status = ready AND available_at <= now`.
abbrev pub is_ready : DbMillis → WorkflowRow → Bool
is_ready now r = Workflow.same r.status WorkflowStatus.ready && leb_ℤ r.available_at now

-- `definition_keys` is empty for a coordinator without workflows: it claims nothing.
unfoldable pub claim_candidate : List (String × ℤ) → (ℤ → Bool) → DbMillis → Db → Option WorkflowRow
claim_candidate definitions held now db = first_where (unheld held) (
    limit 32
      (order_by sooner (select_where (λ r. defined definitions r && is_ready now r) db.workflows)))

abbrev pub claimed_row : String → String → DbMillis → DbMillis → WorkflowRow → WorkflowRow
claimed_row worker_id lease_token lease_expires_at now r = record r {
  status = WorkflowStatus.running;
  lease_owner = some worker_id;
  lease_token = some lease_token;
  lease_expires_at = some lease_expires_at;
  updated_at = now;
}

unfoldable pub lease_row : Env → String → DbMillis → Option WorkflowRow → Tx (Option ClaimedRow)
lease_row env worker_id lease_expires_at none = pure none
lease_row env worker_id lease_expires_at (some row) = do
  changed ←
      update_workflows (λ r. r.id ==ℤ row.id && Workflow.same r.status WorkflowStatus.ready)
        (claimed_row worker_id env.uuid lease_expires_at env.now)
  ensure_fenced changed
  pure (
      some (record {
        row = record row {
          status = WorkflowStatus.running;
          lease_token = some env.uuid;
          lease_expires_at = some lease_expires_at;
        };
        lease_token = env.uuid;
      }))

-- `held` and `held'` are what the two `SKIP LOCKED` reads find locked.
unfoldable pub claim_row :
    Env
    → CoordinatorConfig
    → List (String × ℤ)
    → String
    → (ℤ → Bool)
    → (ℤ → Bool)
    → Tx (Option ClaimedRow)
claim_row env config definitions worker_id held held' = do
  lease_duration_millis ← lift (duration_millis config.lease_duration)
  lease_expires_at ← or_fail (checked_plus_millis env.now lease_duration_millis) invalid_definition
  expired ← reads (λ db.
      first_by expires_first
        (select_where (λ r. lease_expired env.now r && unheld held r) db.workflows))
  recover env expired
  candidate ← reads (claim_candidate definitions held' env.now)
  lease_row env worker_id lease_expires_at candidate
