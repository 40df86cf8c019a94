-- ===== src/Admin/Restart/Sound.antt =====
-- A restart changes rows only as the program may.
use durable_workflows.Base.{◌≡◌, refl, false, Option, none, some, String}
use durable_workflows.Base.Int.{ℤ}
use durable_workflows.Status.Workflow
use durable_workflows.Rows.{WorkflowRow}
use durable_workflows.Tx.{Db}
use durable_workflows.Events.{Env}
use durable_workflows.Sound.Keeps.{
  Keeps, Keeps-pure, Keeps-reads, Keeps-require, Keeps-lift, Keeps-bind, Keeps-ensure_fenced,
  Keeps-update_schedule_runs,
}
use durable_workflows.Parents.Sound.{Keeps-wake_waiting_parents}
use durable_workflows.System.Allows.{
  Allows, Allows-Keeps, Allows-if, Allows-bind, Allows-update_workflows,
}
use durable_workflows.Store.Start.Sound.{Keeps-insert_prepared}
use durable_workflows.Store.Cancel.Sound.{
  live-WorkflowChange, unchanged-live, Allows-cancel_activities, Keeps-cancel_approvals,
  Allows-cancel_owned_descendants,
}
use durable_workflows.Store.Recover.Sound.{superseded-WorkflowOk}
use durable_workflows.Admin.{Operator, Handlers}
use durable_workflows.Admin.Sound.{Keeps-lock_workflow, Keeps-append_operator_event}
use durable_workflows.Admin.Restart.{
  close_source, close_if_live, repoint_run, restart_locked, restart,
}

module _ {old : Db} where
  Keeps-repoint_run :
      (run : Option ℤ) (source successor : ℤ) → Keeps old (repoint_run run source successor)
  unfolding repoint_run
  Keeps-repoint_run none source successor = Keeps-pure _
  Keeps-repoint_run (some run) source successor =
      Keeps-bind _ _ (Keeps-update_schedule_runs _ _) (λ n. Keeps-ensure_fenced n)

module _ {old : Db} where
  Allows-close_source :
      (env : Env) (o : Operator) (w : WorkflowRow)
      → Workflow.is_terminal w.status ≡ false
      → Allows old (close_source env o w)
  unfolding close_source
  Allows-close_source env o w live = Allows-bind _ _ (Allows-cancel_activities _ _ _ _) (λ u.
      Allows-bind _ _ (Allows-Keeps _ (λ db. Keeps-cancel_approvals _ _ _)) (λ u'.
        Allows-bind _ _
          (Allows-update_workflows _ _ (λ r e sound. superseded-WorkflowOk env.now r sound)
            (λ r e. live-WorkflowChange r _ (unchanged-live w r live e) refl refl refl refl))
          (λ n. Allows-bind _ _ (Allows-Keeps _ (λ db. Keeps-ensure_fenced n)) (λ fenced.
            Allows-bind _ _ (Allows-Keeps _ (λ db. Keeps-append_operator_event _ _ _ _)) (λ told.
              Allows-bind _ _ (Allows-Keeps _ (λ db. Keeps-wake_waiting_parents env w _ env.now))
                (λ woken. Allows-cancel_owned_descendants env _ env.now w _))))))

  Allows-close_if_live :
      (env : Env) (o : Operator) (w : WorkflowRow) → Allows old (close_if_live env o w)
  unfolding close_if_live
  Allows-close_if_live env o w =
      Allows-if (Workflow.is_terminal w.status) _ _ (λ e. Allows-Keeps _ (λ db. Keeps-pure _))
        (λ live. Allows-close_source env o w live)

  Allows-restart_locked :
      (env : Env) (h : Handlers) (o : Operator) (c : Option String) (w : WorkflowRow)
      → Allows old (restart_locked env h o c w)
  unfolding restart_locked
  Allows-restart_locked env h o c w =
      Allows-bind _ _ (Allows-Keeps _ (λ db. Keeps-require _ _)) (λ restartable.
        Allows-bind _ _ (Allows-Keeps _ (λ db. Keeps-reads _)) (λ once.
          Allows-bind _ _ (Allows-Keeps _ (λ db. Keeps-require _ _)) (λ first.
            Allows-bind _ _ (Allows-Keeps _ (λ db. Keeps-lift _)) (λ p.
              Allows-bind _ _ (Allows-Keeps _ (λ db. Keeps-lift _)) (λ checked.
                Allows-bind _ _ (Allows-Keeps _ (λ db. Keeps-insert_prepared env p _)) (λ s.
                  Allows-bind _ _ (Allows-Keeps _ (λ db. Keeps-require _ _)) (λ inserted.
                    Allows-bind _ _ (Allows-close_if_live env o w) (λ closed. Allows-Keeps _ (λ db.
                      Keeps-bind _ _ (Keeps-repoint_run _ _ _) (λ u.
                        Keeps-bind _ _ (Keeps-append_operator_event _ _ _ _) (λ told.
                          Keeps-bind _ _ (Keeps-append_operator_event _ _ _ _)
                            (λ told'. Keeps-pure _))))))))))))

  pub Allows-restart :
      (env : Env) (h : Handlers) (o : Operator) (c : Option String) (id : ℤ)
      → Allows old (restart env h o c id)
  unfolding restart
  Allows-restart env h o c id =
      Allows-bind _ _ (Allows-Keeps _ (λ db. Keeps-lock_workflow _))
        (λ w. Allows-restart_locked env h o c w)
