-- ===== src/Examples/Run.antt =====
-- The theorems on the engine, on the small database and its run.
use durable_workflows.Base.{
  ◌≡◌, refl, arith, Bool, true, false, Option, none, some, List, [], ◌∷◌, All, String,
}
use durable_workflows.Base.Int.{ℤ, pos, ◌≤ℤ◌}
use durable_workflows.Base.Member.{Memᴰ}
use durable_workflows.Base.Outcome.{ok}
use durable_workflows.Clock.{DbMillis}
use durable_workflows.Clock.Bounds.{InRange}
use durable_workflows.Policy.{fixed_delay, check, passed}
use durable_workflows.Status.Workflow
use durable_workflows.Status.Workflow.{WorkflowStatus}
use durable_workflows.Status.Activity
use durable_workflows.Tx.{Db, is_some, committed}
use durable_workflows.Tx.Refuses.{Fails}
use durable_workflows.Sound.{Follows, wait_fits, lease_fits}
use durable_workflows.Rows.{WorkflowEventRow}
use durable_workflows.Coordinator.Child.{StoredTransition, commit_on_connection}
use durable_workflows.Coordinator.{ClaimedRow}
use durable_workflows.Coordinator.Failure.{failure_available_at, record_activation_failure}
use durable_workflows.Coordinator.Failure.Delay.{failure_available_at_total}
use durable_workflows.Coordinator.Fence.{lost_claim}
use durable_workflows.Worker.{ActivityClaim, leased, decoded}
use durable_workflows.Worker.Claim.{claim_locked_candidate}
use durable_workflows.Worker.Heartbeat.{heartbeat_once}
use durable_workflows.Worker.Finish.{ExecutionOutcome, finish_on_connection}
use durable_workflows.Worker.Fence.{lost_lease}
use durable_workflows.Engine.Sound.{Reach-Follows}
use durable_workflows.Engine.Lasting.{
  settled_workflow_stays, terminal_activity_stays, finished_attempt_stays, decided_approval_stays,
  lease_iff_running, wait_fits_status,
}
use durable_workflows.Examples.World.{
  config, env, running, ended, pending, done, finished, decided, world, world-IsSound, after,
  world_reaches,
}

Reach-Follows_example : Follows world after
Reach-Follows_example = Reach-Follows world after world-IsSound world_reaches

settled_workflow_stays_example : Memᴰ ended after.workflows
settled_workflow_stays_example =
    settled_workflow_stays world after ended world-IsSound world_reaches
      (Memᴰ.tail (Memᴰ.tail (Memᴰ.head refl))) refl

terminal_activity_stays_example : Memᴰ done after.activities
terminal_activity_stays_example =
    terminal_activity_stays world after done world-IsSound world_reaches
      (Memᴰ.tail (Memᴰ.head refl)) refl

finished_attempt_stays_example : Memᴰ finished after.attempts
finished_attempt_stays_example =
    finished_attempt_stays world after finished world-IsSound world_reaches (Memᴰ.head refl) refl

decided_approval_stays_example : Memᴰ decided after.approvals
decided_approval_stays_example =
    decided_approval_stays world after decided world-IsSound world_reaches (Memᴰ.head refl) refl

lease_iff_running_example :
    All
      (λ r.
        lease_fits
          (Workflow.same r.status WorkflowStatus.running)
          r.lease_expires_at
          (is_some r.lease_owner)
          (is_some r.lease_token)
        ≡ true)
      after.workflows
    × All
        (λ r.
          lease_fits
            (Activity.holds_lease r.status)
            r.lease_expires_at
            (is_some r.lease_owner)
            (is_some r.lease_token)
          ≡ true)
        after.activities
lease_iff_running_example = lease_iff_running world after world-IsSound world_reaches

wait_fits_status_example :
    All
      (λ r.
        (wait_fits r.status r.wait_kind ≡ true)
        × (is_some r.wait_kind ≡ is_some r.wait_reference_id)
        × (r.status ≡ WorkflowStatus.sleeping → r.wait_reference_id ≡ some r.command_sequence))
      after.workflows
wait_fits_status_example = wait_fits_status world after world-IsSound world_reaches

abbrev stale : ClaimedRow
stale = record { row = running; lease_token = "token-0" }

lost_claim_example :
    ((event : WorkflowEventRow) (transition : StoredTransition)
      → Fails (commit_on_connection env config stale event transition world))
    × ((m : String) → Fails (record_activation_failure env config stale m world))
lost_claim_example = lost_claim env config stale world refl

abbrev stale_attempt : ActivityClaim
stale_attempt = record {
  row = pending;
  attempt_number = pos 1;
  lease_token = "token-0";
  retry_policy = record { backoff = fixed_delay 5 };
}

lost_lease_example :
    Fails (heartbeat_once env stale_attempt world)
    × ((outcome : ExecutionOutcome) → Fails (finish_on_connection env stale_attempt outcome world))
lost_lease_example = lost_lease env stale_attempt world refl

config_passed :
    check config.activation_retry_policy.backoff ≡ passed config.activation_retry_policy.backoff
unfolding check
config_passed = refl

failure_available_at_total_example :
    (t : DbMillis) × (failure_available_at env config running ≡ ok t) × (env.now ≤ℤ t) × InRange t
failure_available_at_total_example =
    failure_available_at_total env config running config_passed (omega arith, omega arith)
      (omega arith)

abbrev any_kind : String → ℤ → Bool
any_kind kind version = true

abbrev none_held : ℤ → Bool
none_held id = false

abbrev claimed : ActivityClaim
claimed = record {
  row = record pending {
    status = Activity.running;
    attempt_count = pos 2;
    lease_token = some "token-2";
    lease_owner = some "worker";
    lease_expires_at = some (pos 1_500);
  };
  attempt_number = pos 2;
  lease_token = "token-2";
  retry_policy = record { backoff = fixed_delay 5 };
}

abbrev after_claim : Db
after_claim =
    committed
      (claim_locked_candidate env any_kind "worker" none_held none_held (pos 10) (pos 4) world)
      world
