-- ===== src/Temporal/Sound.antt =====
-- Firing a timer and expiring an approval keep every row sound.
use durable_workflows.Base.{Bool, true, not, ◌&&◌, ◌≡◌, refl, arith, Option, none, some}
use durable_workflows.Base.Int.{ℤ, ◌==ℤ◌}
use durable_workflows.Base.Table.{select_where, first_by, first_by-All, select_where-All}
use durable_workflows.Clock.{DbMillis}
use durable_workflows.Status.Workflow
use durable_workflows.Status.Workflow.{WorkflowStatus}
use durable_workflows.Status.Approval
use durable_workflows.Status.Approval.{ApprovalStatus}
use durable_workflows.Rows.{WorkflowRow, ApprovalRow}
use durable_workflows.Tx.{Db}
use durable_workflows.Events.{Env}
use durable_workflows.Sound.{ApprovalStep}
use durable_workflows.Sound.Keeps.{
  Keeps, Keeps-if, Keeps-pure, Keeps-bind, Keeps-lift, Keeps-reads, Keeps-reads-bind,
  Keeps-require-bind, Keeps-or_fail, Keeps-update_approvals, keeps_rules,
}
use durable_workflows.Parents.Sound.{is_wakeable, Keeps-clear_wait, Keeps-append_delivery_event}
use durable_workflows.Temporal.{
  sooner, expiry_due, timer_due, unheld, fire_timer, timer_materialize_one, expire_approval,
  expire_candidate,
}

approval_waiter-is_wakeable :
    (s : WorkflowStatus) → Workflow.awaits_approval s ≡ true → is_wakeable s ≡ true
approval_waiter-is_wakeable s e = ground arith

timer_due-is_wakeable :
    (now : DbMillis) (held : ℤ → Bool) (r : WorkflowRow)
    → timer_due now r && unheld held r ≡ true
    → is_wakeable r.status ≡ true
timer_due-is_wakeable now held r e = ground arith

expired-ApprovalStep :
    (a : ApprovalRow) (now : DbMillis) (r : ApprovalRow)
    → r.id ==ℤ a.id && Approval.same r.status ApprovalStatus.pending ≡ true
    → ApprovalStep r (record r { status = ApprovalStatus.expired; resolved_at = some now })
expired-ApprovalStep a now r e = record { id = refl; settled = λ h. ground arith }

module _ {old : Db} where
  Keeps-fire_timer-none : (env : Env) (now : DbMillis) → Keeps old (fire_timer env now none)
  unfolding fire_timer
  Keeps-fire_timer-none env now = Keeps-pure _

  Keeps-fire_timer :
      (env : Env) (now : DbMillis) (w : WorkflowRow)
      → is_wakeable w.status ≡ true
      → Keeps old (fire_timer env now (some w))
  unfolding fire_timer
  Keeps-fire_timer env now w k = Keeps-bind _ _ (Keeps-lift _) (λ n.
      Keeps-bind _ _ (Keeps-append_delivery_event _ _ _ _ _)
        (λ u. Keeps-bind _ _ (Keeps-clear_wait w now k) (λ u'. Keeps-pure _)))

  Keeps-expire_approval :
      (env : Env) (now : DbMillis) (w : WorkflowRow) (a : ApprovalRow)
      → Keeps old (expire_approval env now w a)
  unfolding expire_approval
  Keeps-expire_approval env now w a = Keeps-require-bind _ _ _ (λ k.
      search
        (
          keeps_rules,
          Keeps-append_delivery_event,
          Keeps-clear_wait w now (approval_waiter-is_wakeable w.status k),
          Keeps-update_approvals _ _ (expired-ApprovalStep a now),
        )
        depth 20)

  pub Keeps-timer_materialize_one :
      (env : Env) (held : ℤ → Bool) (now : DbMillis)
      → Keeps old (timer_materialize_one env held now)
  unfolding timer_materialize_one
  Keeps-timer_materialize_one env held now =
      Keeps-reads-bind _ _ (λ db h. (Keeps-found db _ refl).at db h)
    where
      Keeps-found :
          (db : Db) (o : Option WorkflowRow)
          → first_by sooner (select_where (λ r. timer_due now r && unheld held r) db.workflows) ≡ o
          → Keeps old (fire_timer env now o)
      Keeps-found db none e = Keeps-fire_timer-none env now
      Keeps-found db (some w) e = Keeps-fire_timer env now w (
          timer_due-is_wakeable now held w (
            first_by-All (λ r. timer_due now r && unheld held r ≡ true) sooner _ w
              (select_where-All _ db.workflows) e))

  pub Keeps-expire_candidate :
      (env : Env) (now : DbMillis) (a w : ℤ) → Keeps old (expire_candidate env now a w)
  unfolding expire_candidate
  Keeps-expire_candidate env now a w = Keeps-bind _ _ (Keeps-reads _) (λ wr.
      Keeps-bind _ _ (Keeps-or_fail _ _) (λ wf. Keeps-bind _ _ (Keeps-reads _) (λ ar.
        Keeps-bind _ _ (Keeps-or_fail _ _) (λ found.
          Keeps-if (not (expiry_due now found)) _ _ (λ e. Keeps-pure _)
            (λ e. Keeps-expire_approval env now wf found)))))
