-- ===== src/Coordinator/Failure/Sound.antt =====
-- A failed activation keeps the database sound.
use durable_workflows.Base.{◌≡◌, refl, arith, Bool, true, false, String}
use durable_workflows.Base.Int.{ℤ}
use durable_workflows.Clock.{DbMillis}
use durable_workflows.Status.Workflow.{WorkflowStatus}
use durable_workflows.Rows.{WorkflowRow}
use durable_workflows.Tx.{Db}
use durable_workflows.Events.{Env}
use durable_workflows.Sound.{WorkflowOk, WorkflowStep}
use durable_workflows.Sound.Keeps.{
  Keeps, Keeps-pure, Keeps-bind, Keeps-lift, Keeps-reads, Keeps-or_fail, Keeps-update_workflows,
  Keeps-ensure_fenced,
}
use durable_workflows.Parents.Sound.{Keeps-append_history, Keeps-wake_waiting_parents}
use durable_workflows.Coordinator.{CoordinatorConfig, ClaimedRow}
use durable_workflows.Coordinator.Commit.Sound.{fenced-running, committed-WorkflowStep}
use durable_workflows.Coordinator.Failure.{
  WorkflowError, failed_row, wake_if_exhausted, fail_current, record_activation_failure,
}

failed-WorkflowOk :
    (x : Bool) (a : ℤ) (at now : DbMillis) (error : WorkflowError) (r : WorkflowRow)
    → r.status ≡ WorkflowStatus.running
    → WorkflowOk r
    → WorkflowOk (failed_row x a at error now r)
failed-WorkflowOk true a at now error r e sound = record {
  lease = refl;
  wait = ground (arith, sound.wait);
  paired = sound.paired;
  timer = λ h. ground arith;
  completed = refl;
}
failed-WorkflowOk false a at now error r e sound = record {
  lease = refl;
  wait = ground (arith, sound.wait);
  paired = sound.paired;
  timer = λ h. ground arith;
  completed = refl;
}

failed-WorkflowStep :
    (x : Bool) (a : ℤ) (at now : DbMillis) (error : WorkflowError) (r : WorkflowRow)
    → r.status ≡ WorkflowStatus.running
    → WorkflowStep r (failed_row x a at error now r)
failed-WorkflowStep true a at now error r e = committed-WorkflowStep r _ e refl refl refl refl refl
failed-WorkflowStep false a at now error r e = committed-WorkflowStep r _ e refl refl refl refl refl

module _ {old : Db} where
  Keeps-wake_if_exhausted :
      (env : Env) (x : Bool) (w : WorkflowRow) (error : WorkflowError)
      → Keeps old (wake_if_exhausted env x w error)
  unfolding wake_if_exhausted
  Keeps-wake_if_exhausted env true w error = Keeps-wake_waiting_parents env w _ env.now
  Keeps-wake_if_exhausted env false w error = Keeps-pure tt

  Keeps-fail_current :
      (env : Env) (config : CoordinatorConfig) (claim : ClaimedRow) (error : WorkflowError)
      (w : WorkflowRow)
      → Keeps old (fail_current env config claim error w)
  unfolding fail_current
  Keeps-fail_current env config claim error w = Keeps-bind _ _ (Keeps-lift _) (λ at.
      Keeps-bind _ _
        (Keeps-update_workflows _ _
          (λ r e. failed-WorkflowOk _ _ at env.now error r (fenced-running _ _ r e))
          (λ r e. failed-WorkflowStep _ _ at env.now error r (fenced-running _ _ r e)))
        (λ n. Keeps-bind _ _ (Keeps-ensure_fenced n) (λ u.
          Keeps-bind _ _ (Keeps-append_history _ _ _)
            (λ u'. Keeps-wake_if_exhausted env _ w error))))

  pub Keeps-record_activation_failure :
      (env : Env) (config : CoordinatorConfig) (claim : ClaimedRow) (message : String)
      → Keeps old (record_activation_failure env config claim message)
  unfolding record_activation_failure
  Keeps-record_activation_failure env config claim message =
      Keeps-bind _ _ (Keeps-reads _)
        (λ r. Keeps-bind _ _ (Keeps-or_fail _ _) (λ w. Keeps-fail_current env config claim _ w))
