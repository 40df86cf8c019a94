-- ===== src/Admin/Retry/Sound.antt =====
-- A retry changes rows only as the program may.
use durable_workflows.Base.{◌≡◌, refl, arith, true, false, Option, String}
use durable_workflows.Base.Int.{ℤ}
use durable_workflows.Clock.{DbMillis}
use durable_workflows.Status.Workflow
use durable_workflows.Status.Workflow.{WorkflowStatus}
use durable_workflows.Rows.{WorkflowRow, ActivityRow}
use durable_workflows.Tx.{Db, insert_activity}
use durable_workflows.Events.{Env}
use durable_workflows.Sound.{WorkflowOk}
use durable_workflows.Sound.Keeps.{
  Keeps, Keeps-pure, Keeps-reads, Keeps-or_fail, Keeps-require, Keeps-lift, Keeps-bind,
  Keeps-ensure_fenced, Keeps-insert_activity,
}
use durable_workflows.Coordinator.{ActivityCommand}
use durable_workflows.System.Allows.{Allows, Allows-Keeps, Allows-bind, Allows-update_workflows}
use durable_workflows.Store.Cancel.Sound.{live-WorkflowChange}
use durable_workflows.Admin.{Operator, Handlers}
use durable_workflows.Admin.Sound.{Keeps-lock_workflow, Keeps-append_operator_event}
use durable_workflows.Admin.Retry.{
  replacement, blocked_on, rewaiting_row, replace, retry_locked, retry,
}

rewaiting-WorkflowOk :
    (w : WorkflowRow) (source : ActivityRow) (id : ℤ) (now : DbMillis) (r : WorkflowRow)
    → blocked_on w source r ≡ true
    → WorkflowOk r
    → WorkflowOk (rewaiting_row id now r)
rewaiting-WorkflowOk w source id now r e sound = record {
  lease = ground (arith, sound.lease);
  wait = refl;
  paired = refl;
  timer = λ h. cc;
  completed = ground (arith, sound.completed);
}

blocked_on-live :
    (w : WorkflowRow) (source : ActivityRow) (r : WorkflowRow)
    → blocked_on w source r ≡ true
    → Workflow.is_terminal r.status ≡ false
blocked_on-live w source r e = ground arith

module _ {old : Db} where
  Keeps-insert_replacement :
      (env : Env) (source : ActivityRow) (c : ActivityCommand) (key : Option String)
      (number max_attempts timeout lease : ℤ)
      → Keeps old (insert_activity (replacement env source c key number max_attempts timeout lease))
  Keeps-insert_replacement env source c key number max_attempts timeout lease =
      Keeps-insert_activity _ (record { lease = refl; completed = refl })

module _ {old : Db} where
  Allows-replace :
      (env : Env) (o : Operator) (w : WorkflowRow) (source : ActivityRow) (c : ActivityCommand)
      (key : Option String) (number : ℤ) (t : String)
      → Allows old (replace env o w source c key number t)
  unfolding replace
  Allows-replace env o w source c key number t =
      Allows-bind _ _ (Allows-Keeps _ (λ db. Keeps-lift _)) (λ max_attempts.
        Allows-bind _ _ (Allows-Keeps _ (λ db. Keeps-lift _)) (λ timeout.
          Allows-bind _ _ (Allows-Keeps _ (λ db. Keeps-lift _)) (λ lease.
            Allows-bind _ _
              (Allows-Keeps _
                (λ db. Keeps-insert_replacement env source c key number max_attempts timeout lease))
              (λ id.
                Allows-bind _ _
                  (Allows-update_workflows _ _
                    (λ r e sound. rewaiting-WorkflowOk w source id env.now r e sound)
                    (λ r e.
                      live-WorkflowChange r _ (blocked_on-live w source r e) refl refl refl refl))
                  (λ n. Allows-Keeps _ (λ db. Keeps-bind _ _ (Keeps-ensure_fenced n) (λ fenced.
                    Keeps-bind _ _ (Keeps-append_operator_event _ _ _ _)
                      (λ told. Keeps-pure _))))))))

  Allows-retry_locked :
      (env : Env) (h : Handlers) (o : Operator) (c : Option String) (w : WorkflowRow)
      (source : ActivityRow)
      → Allows old (retry_locked env h o c w source)
  unfolding retry_locked
  Allows-retry_locked env h o c w source =
      Allows-bind _ _ (Allows-Keeps _ (λ db. Keeps-require _ _)) (λ blocked.
        Allows-bind _ _ (Allows-Keeps _ (λ db. Keeps-lift _)) (λ wait.
          Allows-bind _ _ (Allows-Keeps _ (λ db. Keeps-require _ _)) (λ waits.
            Allows-bind _ _ (Allows-Keeps _ (λ db. Keeps-or_fail _ _)) (λ number.
              Allows-bind _ _ (Allows-Keeps _ (λ db. Keeps-lift _))
                (λ command. Allows-replace env o w source command _ number _)))))

  pub Allows-retry :
      (env : Env) (h : Handlers) (o : Operator) (c : Option String) (id : ℤ)
      → Allows old (retry env h o c id)
  unfolding retry
  Allows-retry env h o c id = Allows-bind _ _ (Allows-Keeps _ (λ db. Keeps-reads _)) (λ named.
      Allows-bind _ _ (Allows-Keeps _ (λ db. Keeps-or_fail _ _)) (λ found.
        Allows-bind _ _ (Allows-Keeps _ (λ db. Keeps-lock_workflow _)) (λ w.
          Allows-bind _ _ (Allows-Keeps _ (λ db. Keeps-reads _)) (λ locked.
            Allows-bind _ _ (Allows-Keeps _ (λ db. Keeps-or_fail _ _))
              (λ source. Allows-retry_locked env h o c w source)))))
