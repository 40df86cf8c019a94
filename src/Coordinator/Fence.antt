-- ===== src/Coordinator/Fence.antt =====
-- A claim that has lost its row commits nothing.
use durable_workflows.Base.{String}
use durable_workflows.Base.Int.{ℤ}
use durable_workflows.Rows.{WorkflowEventRow}
use durable_workflows.Tx.{Db, ◌>>=◌}
use durable_workflows.Tx.Refuses.{
  Fails, Fails-first, Fails-lift-bind, Fails-or_fail-bind, Fails-none-bind, Fails-reads-bind,
  Fails-fenced_update,
}
use durable_workflows.Events.{Env}
use durable_workflows.Coordinator.{CoordinatorConfig, ClaimedRow}
use durable_workflows.Coordinator.Commit.{
  commit_continue, commit_complete, commit_sleep, lock_fence, commit_approval, commit_activity,
}
use durable_workflows.Coordinator.Child.{
  StoredTransition, run_activity, run_child, sleep_until, wait_for_approval, complete,
  commit_transition, commit_on_connection,
}
use durable_workflows.Coordinator.Child.Fence.{NoRow, commit_child_lost}
use durable_workflows.Coordinator.Failure.{record_activation_failure}

lock_fence_lost :
    (claim : ClaimedRow) (db : Db) → NoRow claim db.workflows → Fails (lock_fence claim db)
unfolding lock_fence ◌>>=◌ durable_workflows.Tx.reads durable_workflows.Tx.or_fail
lock_fence_lost claim db h = rw h tt

commit_transition_lost :
    (env : Env) (config : CoordinatorConfig) (claim : ClaimedRow) (d : ℤ) (t : StoredTransition)
    (db : Db)
    → NoRow claim db.workflows
    → Fails (commit_transition env config claim d t db)
unfolding commit_transition commit_continue commit_complete commit_sleep commit_approval
    commit_activity
commit_transition_lost env config claim d (run_activity s a) db h =
    Fails-first _ _ db (lock_fence_lost claim db h)
commit_transition_lost env config claim d (run_child s c) db h =
    commit_child_lost env claim d s c db h
commit_transition_lost env config claim d (sleep_until s at) db h =
    Fails-lift-bind _ _ db (λ n. Fails-fenced_update _ _ _ db h)
commit_transition_lost env config claim d (wait_for_approval s a at) db h =
    Fails-first _ _ db (lock_fence_lost claim db h)
commit_transition_lost env config claim d (StoredTransition.continue s) db h =
    Fails-lift-bind _ _ db (λ at. Fails-fenced_update _ _ _ db h)
commit_transition_lost env config claim d (complete o) db h = Fails-fenced_update _ _ _ db h

-- When no row of the claimed workflow runs under the claim's token, no transition of any kind and no
-- activation failure commits: the stale claim changes nothing, not even by a child that it started.
pub lost_claim :
    (env : Env) (config : CoordinatorConfig) (claim : ClaimedRow) (db : Db)
    → NoRow claim db.workflows
    → ((event : WorkflowEventRow) (transition : StoredTransition)
        → Fails (commit_on_connection env config claim event transition db))
      × ((message : String) → Fails (record_activation_failure env config claim message db))
unfolding commit_on_connection record_activation_failure
lost_claim env config claim db h = (
  λ event t. Fails-or_fail-bind _ _ _ db (λ d. commit_transition_lost env config claim d t db h),
  λ m. Fails-reads-bind _ _ db (Fails-none-bind _ _ _ db h),
)
