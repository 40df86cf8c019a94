-- ===== src/Admin/Sound.antt =====
-- What the controls share keeps the engine's promises, and an operator's cancellation changes rows
-- only as the program may.
use durable_workflows.Base.{arith, not, some, String}
use durable_workflows.Base.Int.{ℤ}
use durable_workflows.Clock.{DbMillis}
use durable_workflows.Status.Workflow
use durable_workflows.Tx.{Db}
use durable_workflows.Events.{Env}
use durable_workflows.Rows.{WorkflowRow}
use durable_workflows.Sound.Keeps.{Keeps, Keeps-bind, Keeps-reads, Keeps-or_fail, keeps_rules}
use durable_workflows.System.Allows.{Allows, Allows-Keeps, Allows-bind, Allows-require-bind}
use durable_workflows.Store.Cancel.Sound.{Allows-cancel_locked_workflow}
use durable_workflows.Admin.{
  Operator, lock_workflow, append_operator_event, cancel_unless_terminal, cancel_workflow,
}

module _ {old : Db} where
  pub Keeps-lock_workflow : (w : ℤ) → Keeps old (lock_workflow w)
  unfolding lock_workflow
  Keeps-lock_workflow w = Keeps-bind _ _ (Keeps-reads _) (λ found. Keeps-or_fail _ _)

  pub Keeps-append_operator_event :
      (w : ℤ) (t : String) (o : Operator) (now : DbMillis)
      → Keeps old (append_operator_event w t o now)
  unfolding append_operator_event
  Keeps-append_operator_event w t o now = search keeps_rules

module _ {old : Db} where
  Allows-cancel_unless_terminal :
      (env : Env) (o : Operator) (w : WorkflowRow) → Allows old (cancel_unless_terminal env o w)
  unfolding cancel_unless_terminal
  Allows-cancel_unless_terminal env o w =
      Allows-require-bind (not (Workflow.is_terminal w.status)) _ _
        (λ e. Allows-cancel_locked_workflow env (some o.actor_id) env.now w _ (ground arith))

  pub Allows-cancel_workflow :
      (env : Env) (o : Operator) (w : ℤ) → Allows old (cancel_workflow env o w)
  unfolding cancel_workflow
  Allows-cancel_workflow env o w =
      Allows-bind _ _ (Allows-Keeps _ (λ db. Keeps-lock_workflow w))
        (λ row. Allows-cancel_unless_terminal env o row)
