-- ===== src/Examples/Controls.antt =====
-- The theorems on the whole program, on a run of it: an operator resumes a workflow and pauses another.
use durable_workflows.Base.{◌≡◌, refl, arith, true, false, none, some, List, [], ◌∷◌, All}
use durable_workflows.Base.Int.{ℤ, pos}
use durable_workflows.Base.Outcome.{ok}
use durable_workflows.Status.Workflow.{WorkflowStatus}
use durable_workflows.Tx.{Db, committed}
use durable_workflows.Admin.{Operator}
use durable_workflows.Admin.Pause.{pause_workflow}
use durable_workflows.Admin.Resume.{resume_workflow, resume_status}
use durable_workflows.Admin.Resume.Sound.{IsResumable}
use durable_workflows.System.Change.{Changes}
use durable_workflows.System.{Reach, begin, next, pauses, resumes}
use durable_workflows.System.Sound.{Reach-Changes}
use durable_workflows.Examples.World.{env, world, world-IsSound}

abbrev operator : Operator
operator = record { actor_id = "7"; reason = "maintenance" }

unfoldable resumed : Db
resumed = committed (resume_workflow env operator (pos 2) world) world

unfoldable both : Db
unfolding resumed
both = committed (pause_workflow env operator (pos 1) resumed) resumed

world_resumes :
    resume_workflow env operator (pos 2) world ≡ ok (WorkflowStatus.waiting_child, resumed)
unfolding resumed resume_workflow durable_workflows.Tx.◌>>=◌ durable_workflows.Admin.lock_workflow
    durable_workflows.Tx.or_fail durable_workflows.Admin.Resume.resume_locked
    durable_workflows.Tx.require durable_workflows.Wait.parse resume_status
    durable_workflows.Tx.update_workflows durable_workflows.Tx.ensure_fenced
    durable_workflows.Admin.append_operator_event durable_workflows.Tx.next_event_sequence
    durable_workflows.Base.Int.◌+ℤ◌ durable_workflows.Tx.append_event
world_resumes = refl

resumed_pauses : pause_workflow env operator (pos 1) resumed ≡ ok (tt, both)
unfolding both resumed pause_workflow resume_workflow durable_workflows.Tx.◌>>=◌
    durable_workflows.Admin.lock_workflow durable_workflows.Tx.or_fail
    durable_workflows.Admin.Resume.resume_locked durable_workflows.Tx.require
    durable_workflows.Wait.parse resume_status durable_workflows.Tx.update_workflows
    durable_workflows.Tx.ensure_fenced durable_workflows.Admin.append_operator_event
    durable_workflows.Tx.next_event_sequence durable_workflows.Base.Int.◌+ℤ◌
    durable_workflows.Tx.append_event
resumed_pauses = refl

world-IsResumable : All (IsResumable world) world.workflows
unfolding durable_workflows.Wait.parse durable_workflows.Wait.new_id resume_status
world-IsResumable = (
  (λ w e k. cc, (λ e. refl, (λ e. cc, (λ e. cc, (λ e. cc, tt))))),
  (
    (λ w e k. ground (arith, e, k), (λ e. cc, (λ e. refl, (λ e. cc, (λ e. cc, tt))))),
    (
      (λ w e k. cc, (λ e. cc, (λ e. cc, (λ e. refl, (λ e. cc, tt))))),
      ((λ w e k. ground (arith, e, k), (λ e. cc, (λ e. cc, (λ e. cc, (λ e. refl, tt))))), tt),
    ),
  ),
)

world_reaches_both : Reach world both
world_reaches_both =
    next
      (next begin (
        resumes env operator (pos 2) world-IsResumable
          (WorkflowStatus.waiting_child, world_resumes)))
      (pauses env operator (pos 1) (tt, resumed_pauses))

Reach-Changes_example : Changes world both
Reach-Changes_example = Reach-Changes world both world-IsSound world_reaches_both
