-- ===== src/Status/Sets.antt =====
-- The status sets that the build compares with their predicates, and the predicates among
-- themselves.
use durable_workflows.Base.{◌≡◌, refl, true, false, ◌||◌, arith}
use durable_workflows.Status.Workflow
use durable_workflows.Status.Workflow.{WorkflowStatus}
use durable_workflows.Status.Activity
use durable_workflows.Status.Activity.{ActivityStatus}

-- Each of the four workflow status sets lists exactly the statuses of its predicate.
pub workflow_status_sets :
    (s : WorkflowStatus)
    → (Workflow.set_contains Workflow.terminal s ≡ Workflow.is_terminal s)
      × (Workflow.set_contains Workflow.child_waiters s ≡ Workflow.awaits_child s)
      × (Workflow.set_contains Workflow.approval_waiters s ≡ Workflow.awaits_approval s)
      × (Workflow.set_contains Workflow.dead_letter_waiters s ≡ Workflow.awaits_dead_letter s)
workflow_status_sets WorkflowStatus.ready = (refl, refl, refl, refl)
workflow_status_sets _ = (refl, refl, refl, refl)

-- Each of the three activity status sets lists exactly the statuses of its predicate.
pub activity_status_sets :
    (s : ActivityStatus)
    → (Activity.set_contains Activity.slot_holders s ≡ Activity.holds_slot s)
      × (Activity.set_contains Activity.lease_holders s ≡ Activity.holds_lease s)
      × (Activity.set_contains Activity.non_terminal s ≡ Activity.is_non_terminal s)
activity_status_sets ActivityStatus.pending = (refl, refl, refl)
activity_status_sets _ = (refl, refl, refl)

-- A workflow that may hold a wait is not terminal, a restart accepts exactly the terminal, paused
-- and blocked statuses, and a recoverable start is a restartable one.
pub workflow_status_predicates :
    (s : WorkflowStatus)
    → (Workflow.awaits_child s || Workflow.awaits_approval s || Workflow.awaits_dead_letter s ≡ true
        → Workflow.is_terminal s ≡ false)
      × (Workflow.is_restartable s ≡ (
          Workflow.is_terminal s
          || Workflow.same s WorkflowStatus.paused
          || Workflow.same s WorkflowStatus.blocked))
      × (Workflow.is_start_recoverable s ≡ true → Workflow.is_restartable s ≡ true)
workflow_status_predicates s = ground arith
