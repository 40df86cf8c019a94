-- ===== src/Examples/Claims.antt =====
-- A claim on a database with one ready workflow.
use durable_workflows.Base.{
  ◌≤◌, ◌+◌, length, arith, ◌≡◌, refl, true, false, none, some, List, [], ◌∷◌, String,
}
use durable_workflows.Base.Int.{ℤ, pos}
use durable_workflows.Base.Member.{Memᴰ}
use durable_workflows.Base.Outcome.{ok}
use durable_workflows.Status.Workflow.{WorkflowStatus}
use durable_workflows.Rows.{WorkflowRow}
use durable_workflows.Tx.{Db}
use durable_workflows.Coordinator.Claim.{claim_row}
use durable_workflows.Coordinator.Claim.Found.{claim_of, leased_db, is_due, claim_row-is_due}
use durable_workflows.Coordinator.Child.{complete}
use durable_workflows.Coordinator.Activate.{Runtime, returned}
use durable_workflows.Restart.{
  fault, panic, RestartPolicy, new_policy, TaskRestarts, new_task, Failure, survives,
}
use durable_workflows.Restart.Budget.{survives-InWindow}
use durable_workflows.Examples.World.{env, running, ended, world, config}

abbrev ready : WorkflowRow
ready = record running {
  id = pos 7;
  status = WorkflowStatus.ready;
  lease_owner = none;
  lease_token = none;
  lease_expires_at = none;
}

abbrev waiting_room : Db
waiting_room = record world { workflows = running ∷ ready ∷ ended ∷ [] }

abbrev definitions : List (String × ℤ)
definitions = ("order", pos 1) ∷ []

claim_row-is_due_example :
    (x : WorkflowRow) × Memᴰ x waiting_room.workflows
    × (is_due definitions env.now x ≡ true)
    × (claim_row env config definitions "worker" (λ id. false) (λ id. false) waiting_room
        ≡ ok (
          some (claim_of env (pos 31_000) x),
          leased_db env "worker" (pos 31_000) x waiting_room,
        ))
unfolding durable_workflows.Clock.duration_millis durable_workflows.Clock.checked_plus_millis
claim_row-is_due_example =
    claim_row-is_due env config definitions "worker" (λ id. false) waiting_room ready (pos 30_000)
      (pos 31_000) refl refl (refl, (refl, (refl, tt))) (refl, (refl, (refl, tt)))
      (Memᴰ.tail (Memᴰ.head refl)) refl

-- A handler that completes at once.
abbrev runtime : Runtime
runtime = record {
  step_stored = λ claim event. returned (ok (complete "\"done\""));
  contains_workflow = λ kind version. true;
  contains_activity = λ kind version. true;
  topic_for = λ kind version. some "payments";
  child_not_registered = λ kind version. kind;
  activity_not_registered = λ kind version. kind;
  topic_mismatch = λ kind version topic registered. kind;
  error_text = λ e. "error";
  is_transient = λ e. false;
}

-- A task with room for two restarts in a window of 100.
abbrev policy : RestartPolicy
policy = new_policy 5 20 1_000 2 100 500

abbrev task : TaskRestarts
task = new_task 10 policy

abbrev failures : List Failure
failures =
    record { now = 40; ran_for = 20; kind = fault }
    ∷ record { now = 90; ran_for = 30; kind = panic }
    ∷ []

abbrev survivor : TaskRestarts
survivor = record {
  budget = record { count = 2; window_started = 10 };
  backoff = 20;
  outage_started = none;
}

failures_survived : survives policy failures task ≡ some survivor
unfolding survives
failures_survived = refl

survives-InWindow_example : task.budget.count + length failures ≤ policy.max_restarts
survives-InWindow_example =
    survives-InWindow policy failures task survivor (omega arith) (omega arith)
      ((refl, omega arith), ((refl, omega arith), tt)) failures_survived
