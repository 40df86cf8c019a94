-- ===== src/Admin/Resolve/Sound.antt =====
-- An operator's decision changes rows only as the program may.
use durable_workflows.Base.{◌≡◌, refl, arith, true, false, ◌&&◌, String}
use durable_workflows.Base.Int.{ℤ, ◌==ℤ◌}
use durable_workflows.Clock.{DbMillis}
use durable_workflows.Status.Workflow
use durable_workflows.Status.Workflow.{WorkflowStatus}
use durable_workflows.Status.Approval
use durable_workflows.Status.Approval.{ApprovalStatus}
use durable_workflows.Rows.{WorkflowRow, ApprovalRow}
use durable_workflows.Tx.{Db, update_approvals}
use durable_workflows.Events.{Env}
use durable_workflows.Sound.{WorkflowOk, is_decided}
use durable_workflows.Sound.Keeps.{
  Keeps, Keeps-reads, Keeps-or_fail, Keeps-require, Keeps-lift, Keeps-ensure_fenced,
  Keeps-update_approvals, Keeps-next_event_sequence, Keeps-append_event,
}
use durable_workflows.System.Allows.{
  Allows, Allows-Keeps, Allows-bind, Allows-require-bind, Allows-update_workflows,
}
use durable_workflows.Store.Cancel.Sound.{live-WorkflowChange}
use durable_workflows.Admin.{Operator, Handlers}
use durable_workflows.Admin.Sound.{Keeps-lock_workflow}
use durable_workflows.Admin.Resolve.{
  resolved_approval, still_waits, answered_row, deliver_decision, resolve_locked, resolve_approval,
}

answered-WorkflowOk :
    (w : WorkflowRow) (a : ApprovalRow) (now : DbMillis) (r : WorkflowRow)
    → Workflow.awaits_approval w.status ≡ true
    → still_waits w a r ≡ true
    → WorkflowOk r
    → WorkflowOk (answered_row w.status now r)
answered-WorkflowOk w a now r k e sound = record {
  lease = ground (arith, sound.lease);
  wait = ground arith;
  paired = refl;
  timer = λ h. cc;
  completed = ground (arith, sound.completed);
}

still_waits-live :
    (w : WorkflowRow) (a : ApprovalRow) (r : WorkflowRow)
    → Workflow.awaits_approval w.status ≡ true
    → still_waits w a r ≡ true
    → Workflow.is_terminal r.status ≡ false
still_waits-live w a r k e = ground arith

module _ {old : Db} where
  Keeps-resolve :
      (d : String) (actor : ℤ) (o : Operator) (now : DbMillis) (a : ApprovalRow)
      → Keeps old (
          update_approvals
            (λ r. r.id ==ℤ a.id && Approval.same r.status ApprovalStatus.pending)
            (resolved_approval d actor o now))
  Keeps-resolve d actor o now a =
      Keeps-update_approvals _ _
        (λ r e. record { id = refl; settled = λ h. absurd (pending_first r e h) })
    where
      pending_first :
          (r : ApprovalRow)
          → (r.id ==ℤ a.id && Approval.same r.status ApprovalStatus.pending) ≡ true
          → is_decided r.status ≡ true
          → ⊥
      pending_first r e h = ground arith

module _ {old : Db} where
  Allows-deliver_decision :
      (env : Env) (o : Operator) (actor : ℤ) (w : WorkflowRow) (a : ApprovalRow) (d : String)
      → Workflow.awaits_approval w.status ≡ true
      → Allows old (deliver_decision env o actor w a d)
  unfolding deliver_decision
  Allows-deliver_decision env o actor w a d k =
      Allows-bind _ _ (Allows-Keeps _ (λ db. Keeps-lift _)) (λ command_sequence.
        Allows-bind _ _ (Allows-Keeps _ (λ db. Keeps-lift _)) (λ sized.
          Allows-bind _ _ (Allows-Keeps _ (λ db. Keeps-or_fail _ _)) (λ delivery.
            Allows-bind _ _ (Allows-Keeps _ (λ db. Keeps-next_event_sequence _)) (λ q.
              Allows-bind _ _ (Allows-Keeps _ (λ db. Keeps-append_event _)) (λ told.
                Allows-bind _ _ (Allows-Keeps _ (λ db. Keeps-resolve d actor o env.now a)) (λ n.
                  Allows-bind _ _ (Allows-Keeps _ (λ db. Keeps-ensure_fenced n)) (λ fenced.
                    Allows-bind _ _
                      (Allows-update_workflows _ _
                        (λ r e sound. answered-WorkflowOk w a env.now r k e sound)
                        (λ r e.
                          live-WorkflowChange r _ (still_waits-live w a r k e) refl refl refl refl))
                      (λ n'. Allows-Keeps _ (λ db. Keeps-ensure_fenced n')))))))))

  Allows-resolve_locked :
      (env : Env) (h : Handlers) (o : Operator) (actor : ℤ) (d : String) (w : WorkflowRow)
      (a : ApprovalRow)
      → Allows old (resolve_locked env h o actor d w a)
  unfolding resolve_locked
  Allows-resolve_locked env h o actor d w a =
      Allows-bind _ _ (Allows-Keeps _ (λ db. Keeps-require _ _)) (λ pending.
        Allows-bind _ _ (Allows-Keeps _ (λ db. Keeps-require _ _)) (λ valid.
          Allows-require-bind (Workflow.awaits_approval w.status) _ _ (λ k.
            Allows-bind _ _ (Allows-Keeps _ (λ db. Keeps-lift _)) (λ wait.
              Allows-bind _ _ (Allows-Keeps _ (λ db. Keeps-require _ _)) (λ waits.
                Allows-bind _ _ (Allows-Keeps _ (λ db. Keeps-lift _))
                  (λ decision. Allows-deliver_decision env o actor w a decision k))))))

  pub Allows-resolve_approval :
      (env : Env) (h : Handlers) (o : Operator) (id : ℤ) (d : String)
      → Allows old (resolve_approval env h o id d)
  unfolding resolve_approval
  Allows-resolve_approval env h o id d =
      Allows-bind _ _ (Allows-Keeps _ (λ db. Keeps-lift _)) (λ actor.
        Allows-bind _ _ (Allows-Keeps _ (λ db. Keeps-reads _)) (λ named.
          Allows-bind _ _ (Allows-Keeps _ (λ db. Keeps-or_fail _ _)) (λ found.
            Allows-bind _ _ (Allows-Keeps _ (λ db. Keeps-lock_workflow _)) (λ w.
              Allows-bind _ _ (Allows-Keeps _ (λ db. Keeps-reads _)) (λ locked.
                Allows-bind _ _ (Allows-Keeps _ (λ db. Keeps-or_fail _ _))
                  (λ a. Allows-resolve_locked env h o actor d w a))))))
