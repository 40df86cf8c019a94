-- ===== src/Engine.antt =====
-- The engine: its transactions as steps of one database, in the order of their commits. The
-- coordinator, the temporal materializers and the activity worker (durable-workflows/src/runtime/)
-- take part; a rolled back transaction is no step. A claim is any row and token that a process may
-- hold, also a stale one. The recoveries and the claims of one T-W1 are steps of their own.
pub mod Sound
pub mod Lasting
pub mod Activation
use durable_workflows.Base.{◌≡◌, Bool, Option, List, String}
use durable_workflows.Base.Int.{ℤ}
use durable_workflows.Base.Outcome.{ok}
use durable_workflows.Clock.{DbMillis}
use durable_workflows.Tx.{Db, Tx}
use durable_workflows.Events.{Env}
use durable_workflows.Temporal.{timer_materialize_one, expire_candidate}
use durable_workflows.Rows.{WorkflowEventRow}
use durable_workflows.Coordinator.{CoordinatorConfig, ClaimedRow}
use durable_workflows.Coordinator.Child.{StoredTransition, commit_on_connection}
use durable_workflows.Coordinator.Claim.{claim_row}
use durable_workflows.Coordinator.Failure.{record_activation_failure}
use durable_workflows.Worker.{ActivityClaim}
use durable_workflows.Worker.Claim.{claim_locked_candidate}
use durable_workflows.Worker.Heartbeat.{heartbeat_once}
use durable_workflows.Worker.Finish.{ExecutionOutcome, finish_on_connection}
use durable_workflows.Worker.Expiry.{reconcile_expired}

-- The transaction commits, and leads from one database to the other.
abbrev pub Commits : {A : Type 0} → Tx A → Db → Db → Type 0
Commits {A} m db db' = (a : A) × (m db ≡ ok (a, db'))

pub data Step : Db → Db → Type 0 where
  claims_workflow :
      {db db' : Db} (env : Env) (config : CoordinatorConfig) (definitions : List (String × ℤ))
      (worker_id : String) (held held' : ℤ → Bool)
      → Commits (claim_row env config definitions worker_id held held') db db'
      → Step db db'
  commits :
      {db db' : Db} (env : Env) (config : CoordinatorConfig) (claim : ClaimedRow)
      (event : WorkflowEventRow) (transition : StoredTransition)
      → Commits (commit_on_connection env config claim event transition) db db'
      → Step db db'
  fails_activation :
      {db db' : Db} (env : Env) (config : CoordinatorConfig) (claim : ClaimedRow) (message : String)
      → Commits (record_activation_failure env config claim message) db db'
      → Step db db'
  fires_timer :
      {db db' : Db} (env : Env) (held : ℤ → Bool) (now : DbMillis)
      → Commits (timer_materialize_one env held now) db db'
      → Step db db'
  expires_approval :
      {db db' : Db} (env : Env) (now : DbMillis) (approval_id workflow_id : ℤ)
      → Commits (expire_candidate env now approval_id workflow_id) db db'
      → Step db db'
  claims_activity :
      {db db' : Db} (env : Env) (registered : String → ℤ → Bool) (worker_id : String)
      (held held' : ℤ → Bool) (candidate_id workflow_id : ℤ)
      → Commits
          (claim_locked_candidate env registered worker_id held held' candidate_id workflow_id)
          db
          db'
      → Step db db'
  beats :
      {db db' : Db} (env : Env) (claim : ActivityClaim)
      → Commits (heartbeat_once env claim) db db'
      → Step db db'
  finishes :
      {db db' : Db} (env : Env) (claim : ActivityClaim) (outcome : ExecutionOutcome)
      → Commits (finish_on_connection env claim outcome) db db'
      → Step db db'
  reconciles :
      {db db' : Db} (env : Env) (held : ℤ → Bool) (topic : String)
      → Commits (reconcile_expired env held topic) db db'
      → Step db db'

-- The databases that the engine leads to.
pub data Reach (start : Db) : Db → Type 0 where
  begin : Reach start start
  next : {db db' : Db} → Reach start db → Step db db' → Reach start db'
