-- ===== src/System.antt =====
-- The whole program as steps of one database: the engine's transactions, the application's starts and
-- cancellations (durable-workflows/src/store.rs) and an operator's controls
-- (durable-workflows/src/admin/control.rs), in the order of their commits.
pub mod Change
pub mod Allows
pub mod Sound
pub mod Lasting
use durable_workflows.Base.{Option, String, All}
use durable_workflows.Base.Int.{ℤ}
use durable_workflows.Tx.{Db}
use durable_workflows.Events.{Env}
use durable_workflows.Engine
use durable_workflows.Engine.{Commits}
use durable_workflows.Store.{PreparedStart, StartOptions}
use durable_workflows.Store.Start.{insert_prepared}
use durable_workflows.Store.Cancel.{cancel_with_conn}
use durable_workflows.Store.Recover.{recoverable_start}
use durable_workflows.Admin.{Operator, Handlers, cancel_workflow}
use durable_workflows.Admin.Pause.{pause_workflow}
use durable_workflows.Admin.Resume.{resume_workflow}
use durable_workflows.Admin.Resume.Sound.{IsResumable}
use durable_workflows.Admin.Retry.{retry}
use durable_workflows.Admin.Resolve.{resolve_approval}
use durable_workflows.Admin.Restart.{restart}

-- A resume is a step of a database where an id names one workflow and no wait is answered already.
pub data Step : Db → Db → Type 0 where
  runs : {db db' : Db} → Engine.Step db db' → Step db db'
  starts :
      {db db' : Db} (env : Env) (prepared : PreparedStart) (options : StartOptions)
      → Commits (insert_prepared env prepared options) db db'
      → Step db db'
  starts_or_recovers :
      {db db' : Db} (env : Env) (prepared : PreparedStart) (options : StartOptions)
      → Commits (recoverable_start env prepared options) db db'
      → Step db db'
  cancels :
      {db db' : Db} (env : Env) (workflow_id : ℤ) (reason : String)
      → Commits (cancel_with_conn env workflow_id reason) db db'
      → Step db db'
  pauses :
      {db db' : Db} (env : Env) (operator : Operator) (workflow_id : ℤ)
      → Commits (pause_workflow env operator workflow_id) db db'
      → Step db db'
  resumes :
      {db db' : Db} (env : Env) (operator : Operator) (workflow_id : ℤ)
      → All (IsResumable db) db.workflows
      → Commits (resume_workflow env operator workflow_id) db db'
      → Step db db'
  operator_cancels :
      {db db' : Db} (env : Env) (operator : Operator) (workflow_id : ℤ)
      → Commits (cancel_workflow env operator workflow_id) db db'
      → Step db db'
  retries :
      {db db' : Db} (env : Env) (handlers : Handlers) (operator : Operator)
      (correction : Option String) (activity_id : ℤ)
      → Commits (retry env handlers operator correction activity_id) db db'
      → Step db db'
  resolves :
      {db db' : Db} (env : Env) (handlers : Handlers) (operator : Operator) (approval_id : ℤ)
      (decision : String)
      → Commits (resolve_approval env handlers operator approval_id decision) db db'
      → Step db db'
  restarts :
      {db db' : Db} (env : Env) (handlers : Handlers) (operator : Operator)
      (correction : Option String) (workflow_id : ℤ)
      → Commits (restart env handlers operator correction workflow_id) db db'
      → Step db db'

-- The databases that the program leads to.
pub data Reach (start : Db) : Db → Type 0 where
  begin : Reach start start
  next : {db db' : Db} → Reach start db → Step db db' → Reach start db'
