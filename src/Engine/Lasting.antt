-- ===== src/Engine/Lasting.antt =====
-- What the engine never takes back, and what it guarantees of each row at every moment.
use durable_workflows.Base.{◌≡◌, arith, true, some, All}
use durable_workflows.Base.Member.{Memᴰ, Grows-Memᴰ_same, All-map}
use durable_workflows.Status.Workflow
use durable_workflows.Status.Workflow.{WorkflowStatus}
use durable_workflows.Status.Waits.{WaitKind}
use durable_workflows.Status.Activity
use durable_workflows.Status.Activity.{ActivityStatus}
use durable_workflows.Rows.{WorkflowRow, ActivityRow, ActivityAttemptRow, ApprovalRow}
use durable_workflows.Tx.{Db, is_some}
use durable_workflows.Sound.{
  IsSound, WorkflowOk, ActivityOk, WorkflowStep, ActivityStep, AttemptStep, ApprovalStep,
  is_settled, is_decided, lease_fits, wait_fits,
}
use durable_workflows.Engine.{Reach}
use durable_workflows.Engine.Sound.{Reach-Follows}

-- From a sound database, a workflow that has succeeded, failed, been cancelled or is blocked keeps
-- its row unchanged whatever the engine does.
pub settled_workflow_stays :
    (db db' : Db) (r : WorkflowRow)
    → IsSound db
    → Reach db db'
    → Memᴰ r db.workflows
    → is_settled r.status ≡ true
    → Memᴰ r db'.workflows
settled_workflow_stays db db' r sound reach m e =
    Grows-Memᴰ_same WorkflowStep r (λ r' s. s.settled e)
      (Reach-Follows db db' sound reach).workflows m

-- From a sound database, an activity that has succeeded, been dead-lettered or cancelled keeps its row
-- unchanged whatever the engine does.
pub terminal_activity_stays :
    (db db' : Db) (r : ActivityRow)
    → IsSound db
    → Reach db db'
    → Memᴰ r db.activities
    → Activity.is_terminal r.status ≡ true
    → Memᴰ r db'.activities
terminal_activity_stays db db' r sound reach m e =
    Grows-Memᴰ_same ActivityStep r (λ r' s. s.settled e)
      (Reach-Follows db db' sound reach).activities m

-- From a sound database, an attempt that has an end keeps its row, with its outcome, whatever the
-- engine does.
pub finished_attempt_stays :
    (db db' : Db) (a : ActivityAttemptRow)
    → IsSound db
    → Reach db db'
    → Memᴰ a db.attempts
    → is_some a.finished_at ≡ true
    → Memᴰ a db'.attempts
finished_attempt_stays db db' a sound reach m e =
    Grows-Memᴰ_same AttemptStep a (λ a' s. s.settled e) (Reach-Follows db db' sound reach).attempts
      m

-- From a sound database, an approval that is no longer pending keeps its row whatever the engine does.
pub decided_approval_stays :
    (db db' : Db) (a : ApprovalRow)
    → IsSound db
    → Reach db db'
    → Memᴰ a db.approvals
    → is_decided a.status ≡ true
    → Memᴰ a db'.approvals
decided_approval_stays db db' a sound reach m e =
    Grows-Memᴰ_same ApprovalStep a (λ a' s. s.settled e)
      (Reach-Follows db db' sound reach).approvals m

-- In every database that the engine reaches from a sound one, a workflow has a lease owner, a token
-- and an expiry exactly while it runs, and an activity exactly while it runs or is being cancelled.
pub lease_iff_running :
    (db db' : Db)
    → IsSound db
    → Reach db db'
    → All
        (λ r.
          lease_fits
            (Workflow.same r.status WorkflowStatus.running)
            r.lease_expires_at
            (is_some r.lease_owner)
            (is_some r.lease_token)
          ≡ true)
        db'.workflows
      × All
          (λ r.
            lease_fits
              (Activity.holds_lease r.status)
              r.lease_expires_at
              (is_some r.lease_owner)
              (is_some r.lease_token)
            ≡ true)
          db'.activities
lease_iff_running db db' sound reach =
    let follows = Reach-Follows db db' sound reach in
    (
      All-map WorkflowOk _ (λ r ok. ok.lease) db'.workflows follows.workflows_ok,
      All-map ActivityOk _ (λ r ok. ok.lease) db'.activities follows.activities_ok,
    )

sleeps-timer :
    (r : WorkflowRow)
    → r.status ≡ WorkflowStatus.sleeping
    → wait_fits r.status r.wait_kind ≡ true
    → r.wait_kind ≡ some WaitKind.timer
sleeps-timer r e fits = ground arith

-- In every database that the engine reaches from a sound one, a workflow that waits for an activity, a
-- child, an approval or a timer has a wait of that kind with a reference, a timer's reference is the
-- sequence of the command that set it, and a ready or running workflow has no wait.
pub wait_fits_status :
    (db db' : Db)
    → IsSound db
    → Reach db db'
    → All
        (λ r.
          (wait_fits r.status r.wait_kind ≡ true)
          × (is_some r.wait_kind ≡ is_some r.wait_reference_id)
          × (r.status ≡ WorkflowStatus.sleeping → r.wait_reference_id ≡ some r.command_sequence))
        db'.workflows
wait_fits_status db db' sound reach =
    All-map WorkflowOk _ (λ r ok. (ok.wait, ok.paired, λ e. ok.timer (sleeps-timer r e ok.wait)))
      db'.workflows (Reach-Follows db db' sound reach).workflows_ok
