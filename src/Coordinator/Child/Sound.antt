-- ===== src/Coordinator/Child/Sound.antt =====
-- A commit that runs a child keeps the database sound, and so does the commit of any transition.
use durable_workflows.Base.{refl, Option, none, some, String}
use durable_workflows.Base.Int.{ℤ}
use durable_workflows.Status.Workflow.{WorkflowStatus}
use durable_workflows.Wait.{Wait}
use durable_workflows.Rows.{WorkflowRow, WorkflowEventRow}
use durable_workflows.Tx.{Db}
use durable_workflows.Events.{Env}
use durable_workflows.Sound.{WorkflowOk}
use durable_workflows.Sound.Keeps.{
  Keeps, Keeps-pure, Keeps-bind, Keeps-lift, Keeps-reads, Keeps-or_fail, Keeps-update_workflows,
  Keeps-ensure_fenced, keeps_rules,
}
use durable_workflows.Parents.{ChildOutcome}
use durable_workflows.Parents.Sound.{Keeps-append_history, Keeps-wake_waiting_parents}
use durable_workflows.Store.Start.{StartedInsert, find_by_deduplication_key}
use durable_workflows.Store.Start.Sound.{Keeps-insert_started}
use durable_workflows.Coordinator.{CoordinatorConfig, ClaimedRow}
use durable_workflows.Coordinator.Commit.Sound.{
  fenced-running, waiting-WorkflowOk, committed-WorkflowStep, Keeps-commit_continue,
  Keeps-commit_complete, Keeps-commit_sleep, Keeps-commit_approval, Keeps-commit_activity,
}
use durable_workflows.Coordinator.Child.{
  ChildWorkflowCommand, ChildStart, child_id, child_row, lock_workflow_by_id, keyed_child,
  resolve_child, insert_child, refuse_ancestor, set_child_wait, deliver_outcome, deliver_existing,
  commit_child, StoredTransition, run_activity, run_child, sleep_until, wait_for_approval, complete,
  commit_transition, commit_on_connection,
}

child-WorkflowOk :
    (env : Env) (c : ChildWorkflowCommand) (key : String) (p command root : ℤ)
    → WorkflowOk (child_row env c key p command root)
child-WorkflowOk env c key p command root = record {
  lease = refl;
  wait = refl;
  paired = refl;
  timer = λ h. cc;
  completed = refl;
}

module _ {old : Db} where
  pub Keeps-lock_workflow_by_id : (id : ℤ) → Keeps old (lock_workflow_by_id id)
  unfolding lock_workflow_by_id
  Keeps-lock_workflow_by_id id = search keeps_rules

  Keeps-keyed_child :
      (env : Env) (row : WorkflowRow) (found : Option WorkflowRow)
      → WorkflowOk row
      → Keeps old (keyed_child env row found)
  unfolding keyed_child
  Keeps-keyed_child env row (some keyed) sound =
      Keeps-bind _ _ (Keeps-lock_workflow_by_id _) (λ locked. Keeps-pure _)
  Keeps-keyed_child env row none sound = Keeps-insert_started env row sound

  Keeps-resolve_child :
      (c : ChildWorkflowCommand) (s : StartedInsert) → Keeps old (resolve_child c s)
  unfolding resolve_child
  Keeps-resolve_child c (StartedInsert.inserted id) = Keeps-pure _
  Keeps-resolve_child c (StartedInsert.existing keyed) = search keeps_rules

  Keeps-insert_child :
      (env : Env) (c : ChildWorkflowCommand) (key : String) (p command root : ℤ)
      → Keeps old (insert_child env c key p command root)
  unfolding insert_child find_by_deduplication_key
  Keeps-insert_child env c key p command root = Keeps-bind _ _ (Keeps-lift _) (λ u.
      Keeps-bind _ _ (Keeps-reads _) (λ found.
        Keeps-bind _ _ (Keeps-keyed_child env _ found (child-WorkflowOk env c key p command root))
          (λ keyed. Keeps-resolve_child c keyed)))

  Keeps-refuse_ancestor :
      (claim : ClaimedRow) (child : ChildStart) → Keeps old (refuse_ancestor claim child)
  unfolding refuse_ancestor
  Keeps-refuse_ancestor claim (ChildStart.inserted id) = Keeps-pure _
  Keeps-refuse_ancestor claim (ChildStart.existing row) = search keeps_rules

  Keeps-set_child_wait :
      (env : Env) (claim : ClaimedRow) (child : ChildStart) (s : String) (d : ℤ)
      → Keeps old (set_child_wait env claim child s d)
  unfolding set_child_wait
  Keeps-set_child_wait env claim child s d =
      Keeps-bind _ _
        (Keeps-update_workflows _ _
          (λ r e.
            waiting-WorkflowOk claim WorkflowStatus.waiting_child (Wait.child (child_id child)) s _
              d env.now r refl refl (fenced-running _ _ r e))
          (λ r e. committed-WorkflowStep r _ (fenced-running _ _ r e) refl refl refl refl refl))
        (λ n. Keeps-ensure_fenced n)

  Keeps-deliver_outcome :
      (env : Env) (row : WorkflowRow) (o : Option ChildOutcome)
      → Keeps old (deliver_outcome env row o)
  unfolding deliver_outcome
  Keeps-deliver_outcome env row none = Keeps-pure _
  Keeps-deliver_outcome env row (some o) = Keeps-wake_waiting_parents env row o env.now

  Keeps-deliver_existing : (env : Env) (child : ChildStart) → Keeps old (deliver_existing env child)
  unfolding deliver_existing
  Keeps-deliver_existing env (ChildStart.inserted id) = Keeps-pure _
  Keeps-deliver_existing env (ChildStart.existing row) = Keeps-deliver_outcome env row _

  Keeps-commit_child :
      (env : Env) (claim : ClaimedRow) (d : ℤ) (s : String) (c : ChildWorkflowCommand)
      → Keeps old (commit_child env claim d s c)
  unfolding commit_child
  Keeps-commit_child env claim d s c = Keeps-bind _ _ (Keeps-insert_child env c _ _ _ _) (λ child.
      Keeps-bind _ _ (Keeps-refuse_ancestor claim child) (λ u.
        Keeps-bind _ _ (Keeps-set_child_wait env claim child s d) (λ u'.
          Keeps-bind _ _ (Keeps-append_history _ _ _) (λ u''. Keeps-deliver_existing env child))))

  Keeps-commit_transition :
      (env : Env) (config : CoordinatorConfig) (claim : ClaimedRow) (d : ℤ) (t : StoredTransition)
      → Keeps old (commit_transition env config claim d t)
  unfolding commit_transition
  Keeps-commit_transition env config claim d (run_activity s a) =
      Keeps-commit_activity env claim d s a
  Keeps-commit_transition env config claim d (run_child s c) = Keeps-commit_child env claim d s c
  Keeps-commit_transition env config claim d (sleep_until s at) =
      Keeps-commit_sleep env claim d s at
  Keeps-commit_transition env config claim d (wait_for_approval s a at) =
      Keeps-commit_approval env claim d s a at
  Keeps-commit_transition env config claim d (StoredTransition.continue s) =
      Keeps-commit_continue env config claim d s
  Keeps-commit_transition env config claim d (complete o) = Keeps-commit_complete env claim d o

  pub Keeps-commit_on_connection :
      (env : Env) (config : CoordinatorConfig) (claim : ClaimedRow) (e : WorkflowEventRow)
      (t : StoredTransition)
      → Keeps old (commit_on_connection env config claim e t)
  unfolding commit_on_connection
  Keeps-commit_on_connection env config claim e t =
      Keeps-bind _ _ (Keeps-or_fail _ _) (λ d. Keeps-commit_transition env config claim d t)
