-- ===== src/Sound.antt =====
-- What the engine keeps between two transactions: the shape of each row, and what may happen to a
-- row from one database to a later one.
pub mod Keeps
use durable_workflows.Base.{
  Bool, true, false, not, ◌&&◌, ◌||◌, ◌≡◌, ◌∙◌, refl, sym, subst, arith, Option, none, some, List,
  ◌==◌, if◌then◌else◌, All,
}
use durable_workflows.Base.Int.{ℤ}
use durable_workflows.Base.Table.{Grows, Grows-refl, Grows-trans}
use durable_workflows.Rows.{
  WorkflowRow, WorkflowEventRow, ActivityRow, ActivityAttemptRow, ApprovalRow,
}
use durable_workflows.Tx.{Db, is_none, is_some}
use durable_workflows.Status.Workflow
use durable_workflows.Status.Workflow.{WorkflowStatus}
use durable_workflows.Status.Activity
use durable_workflows.Status.Activity.{ActivityStatus}
use durable_workflows.Status.Approval.{ApprovalStatus}
use durable_workflows.Status.Waits.{WaitKind}

-- A lease is all three columns or none of them.
abbrev pub lease_fits : Bool → Option ℤ → Bool → Bool → Bool
lease_fits held expires owner token =
    if held then is_some expires && owner && token else is_none expires && not owner && not token

-- The wait kind that a status goes with. A paused workflow may keep any wait, and so may one that
-- an operator cancelled.
abbrev pub wait_fits : WorkflowStatus → Option WaitKind → Bool
wait_fits WorkflowStatus.ready none = true
wait_fits WorkflowStatus.running none = true
wait_fits WorkflowStatus.waiting_activity (some WaitKind.activity) = true
wait_fits WorkflowStatus.waiting_child (some WaitKind.child) = true
wait_fits WorkflowStatus.sleeping (some WaitKind.timer) = true
wait_fits WorkflowStatus.waiting_approval (some WaitKind.approval) = true
wait_fits WorkflowStatus.blocked (some WaitKind.activity) = true
wait_fits WorkflowStatus.succeeded none = true
wait_fits WorkflowStatus.failed none = true
wait_fits WorkflowStatus.paused k = true
wait_fits WorkflowStatus.cancelled k = true
wait_fits s k = false

-- A workflow row: it holds a lease exactly while it runs, it waits for what its status says, its
-- wait has a kind exactly if it has a reference, a timer is referenced by the command that set it,
-- and it is completed exactly in a terminal status.
pub record WorkflowOk (r : WorkflowRow) : Type 0 where
  pub lease :
      lease_fits
        (Workflow.same r.status WorkflowStatus.running)
        r.lease_expires_at
        (is_some r.lease_owner)
        (is_some r.lease_token)
      ≡ true
  pub wait : wait_fits r.status r.wait_kind ≡ true
  pub paired : is_some r.wait_kind ≡ is_some r.wait_reference_id
  pub timer : r.wait_kind ≡ some WaitKind.timer → r.wait_reference_id ≡ some r.command_sequence
  pub completed : is_some r.completed_at ≡ Workflow.is_terminal r.status

-- An activity row: it holds a lease exactly while it runs or is being cancelled, and it is completed
-- exactly in a terminal status.
pub record ActivityOk (r : ActivityRow) : Type 0 where
  pub lease :
      lease_fits
        (Activity.holds_lease r.status)
        r.lease_expires_at
        (is_some r.lease_owner)
        (is_some r.lease_token)
      ≡ true
  pub completed : is_some r.completed_at ≡ Activity.is_terminal r.status

-- The statuses that only an operator leaves, or nobody.
abbrev pub is_settled : WorkflowStatus → Bool
is_settled s = Workflow.is_terminal s || Workflow.same s WorkflowStatus.blocked

-- The statuses that the engine's own steps can lead to, one after the other. It neither pauses nor
-- cancels a workflow, and does not take one out of `paused`.
abbrev pub engine_reaches : WorkflowStatus → WorkflowStatus → Bool
engine_reaches s t =
    if is_settled s || Workflow.same s WorkflowStatus.paused
    then Workflow.same s t
    else not (Workflow.same t WorkflowStatus.paused || Workflow.same t WorkflowStatus.cancelled)

-- From a workflow row to the same row later.
pub record WorkflowStep (r r' : WorkflowRow) : Type 0 where
  pub id : r'.id ≡ r.id
  pub kind : r'.kind ≡ r.kind
  pub version : r'.version ≡ r.version
  pub input_json : r'.input_json ≡ r.input_json
  pub reaches : engine_reaches r.status r'.status ≡ true
  pub settled : is_settled r.status ≡ true → r' ≡ r

-- Where the engine's steps lead an activity: a terminal row stays, and only a row that an operator
-- is cancelling ends as cancelled.
abbrev pub activity_reaches : ActivityStatus → ActivityStatus → Bool
activity_reaches s t =
    if Activity.is_terminal s
    then Activity.same s t
    else if Activity.same s ActivityStatus.cancelling
    then true
    else not (Activity.same t ActivityStatus.cancelling || Activity.same t ActivityStatus.cancelled)

-- From an activity row to the same row later.
pub record ActivityStep (r r' : ActivityRow) : Type 0 where
  pub id : r'.id ≡ r.id
  pub workflow_id : r'.workflow_id ≡ r.workflow_id
  pub payload_json : r'.payload_json ≡ r.payload_json
  pub reaches : activity_reaches r.status r'.status ≡ true
  pub settled : Activity.is_terminal r.status ≡ true → r' ≡ r

-- A finished attempt stays as it is.
pub record AttemptStep (r r' : ActivityAttemptRow) : Type 0 where
  pub activity_id : r'.activity_id ≡ r.activity_id
  pub attempt_number : r'.attempt_number ≡ r.attempt_number
  pub started_at : r'.started_at ≡ r.started_at
  pub settled : is_some r.finished_at ≡ true → r' ≡ r

abbrev pub is_decided : ApprovalStatus → Bool
is_decided ApprovalStatus.pending = false
is_decided _ = true

-- A decided approval stays as it is.
pub record ApprovalStep (r r' : ApprovalRow) : Type 0 where
  pub id : r'.id ≡ r.id
  pub settled : is_decided r.status ≡ true → r' ≡ r

-- An event never changes.
abbrev pub EventStep : WorkflowEventRow → WorkflowEventRow → Type 0
EventStep r r' = r' ≡ r

-- `db` is sound and follows `old`: rows have changed only as the steps say, events only been added.
pub record Follows (old db : Db) : Type 0 where
  pub workflows : Grows WorkflowStep old.workflows db.workflows
  pub activities : Grows ActivityStep old.activities db.activities
  pub attempts : Grows AttemptStep old.attempts db.attempts
  pub approvals : Grows ApprovalStep old.approvals db.approvals
  pub events : Grows EventStep old.events db.events
  pub workflows_ok : All WorkflowOk db.workflows
  pub activities_ok : All ActivityOk db.activities

abbrev pub IsSound : Db → Type 0
IsSound db = All WorkflowOk db.workflows × All ActivityOk db.activities

reaches_refl : (s : WorkflowStatus) → engine_reaches s s ≡ true
reaches_refl WorkflowStatus.ready = refl
reaches_refl _ = refl

reaches_trans :
    (a b c : WorkflowStatus)
    → engine_reaches a b ≡ true
    → engine_reaches b c ≡ true
    → engine_reaches a c ≡ true
reaches_trans a b c p q = ground arith

activity_reaches_trans :
    (a b c : ActivityStatus)
    → activity_reaches a b ≡ true
    → activity_reaches b c ≡ true
    → activity_reaches a c ≡ true
activity_reaches_trans a b c p q = ground arith

activity_reaches_refl : (s : ActivityStatus) → activity_reaches s s ≡ true
activity_reaches_refl ActivityStatus.pending = refl
activity_reaches_refl _ = refl

pub WorkflowStep-refl : (r : WorkflowRow) → WorkflowStep r r
WorkflowStep-refl r = record {
  id = refl;
  kind = refl;
  version = refl;
  input_json = refl;
  reaches = reaches_refl r.status;
  settled = λ h. refl;
}

pub ActivityStep-refl : (r : ActivityRow) → ActivityStep r r
ActivityStep-refl r = record {
  id = refl;
  workflow_id = refl;
  payload_json = refl;
  reaches = activity_reaches_refl r.status;
  settled = λ h. refl;
}

pub AttemptStep-refl : (r : ActivityAttemptRow) → AttemptStep r r
AttemptStep-refl r = record {
  activity_id = refl;
  attempt_number = refl;
  started_at = refl;
  settled = λ h. refl;
}

pub ApprovalStep-refl : (r : ApprovalRow) → ApprovalStep r r
ApprovalStep-refl r = record { id = refl; settled = λ h. refl }

pub WorkflowStep-trans :
    (x y z : WorkflowRow) → WorkflowStep x y → WorkflowStep y z → WorkflowStep x z
WorkflowStep-trans x y z p q = record {
  id = q.id ∙ p.id;
  kind = q.kind ∙ p.kind;
  version = q.version ∙ p.version;
  input_json = q.input_json ∙ p.input_json;
  reaches = reaches_trans x.status y.status z.status p.reaches q.reaches;
  settled = λ h.
      q.settled (subst (λ (r : WorkflowRow). is_settled r.status ≡ true) (sym (p.settled h)) h)
      ∙ p.settled h;
}

pub ActivityStep-trans :
    (x y z : ActivityRow) → ActivityStep x y → ActivityStep y z → ActivityStep x z
ActivityStep-trans x y z p q = record {
  id = q.id ∙ p.id;
  workflow_id = q.workflow_id ∙ p.workflow_id;
  payload_json = q.payload_json ∙ p.payload_json;
  reaches = activity_reaches_trans x.status y.status z.status p.reaches q.reaches;
  settled = λ h.
      q.settled
        (subst (λ (r : ActivityRow). Activity.is_terminal r.status ≡ true) (sym (p.settled h)) h)
      ∙ p.settled h;
}

pub AttemptStep-trans :
    (x y z : ActivityAttemptRow) → AttemptStep x y → AttemptStep y z → AttemptStep x z
AttemptStep-trans x y z p q = record {
  activity_id = q.activity_id ∙ p.activity_id;
  attempt_number = q.attempt_number ∙ p.attempt_number;
  started_at = q.started_at ∙ p.started_at;
  settled = λ h.
      q.settled
        (subst (λ (r : ActivityAttemptRow). is_some r.finished_at ≡ true) (sym (p.settled h)) h)
      ∙ p.settled h;
}

pub ApprovalStep-trans :
    (x y z : ApprovalRow) → ApprovalStep x y → ApprovalStep y z → ApprovalStep x z
ApprovalStep-trans x y z p q = record {
  id = q.id ∙ p.id;
  settled = λ h.
      q.settled (subst (λ (r : ApprovalRow). is_decided r.status ≡ true) (sym (p.settled h)) h)
      ∙ p.settled h;
}

-- A sound database follows itself.
pub Follows-refl : (db : Db) → IsSound db → Follows db db
Follows-refl db h = record {
  workflows = Grows-refl WorkflowStep WorkflowStep-refl db.workflows;
  activities = Grows-refl ActivityStep ActivityStep-refl db.activities;
  attempts = Grows-refl AttemptStep AttemptStep-refl db.attempts;
  approvals = Grows-refl ApprovalStep ApprovalStep-refl db.approvals;
  events = Grows-refl EventStep (λ e. refl) db.events;
  workflows_ok = h.0;
  activities_ok = h.1;
}
