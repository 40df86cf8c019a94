-- ===== src/System/Change.antt =====
-- What any transaction of the program may do to a row, and one rule for each way to show it. A
-- transaction that keeps the engine's promises keeps these too.
use durable_workflows.Base.{◌≡◌, ◌∙◌, refl, sym, subst, arith, Bool, true, ◌||◌, if◌then◌else◌, All}
use durable_workflows.Base.Table.{Grows, Grows-refl, Grows-trans, Grows-map}
use durable_workflows.Rows.{WorkflowRow, ActivityRow}
use durable_workflows.Status.Workflow
use durable_workflows.Status.Activity
use durable_workflows.Status.Activity.{ActivityStatus}
use durable_workflows.Tx.{Db}
use durable_workflows.Sound.{
  Follows, WorkflowOk, ActivityOk, WorkflowStep, ActivityStep, AttemptStep, ApprovalStep, EventStep,
  AttemptStep-refl, ApprovalStep-refl, AttemptStep-trans, ApprovalStep-trans, activity_reaches,
}

-- A workflow keeps what it was started as, and a terminal row stays as it is.
pub record WorkflowChange (r r' : WorkflowRow) : Type 0 where
  pub id : r'.id ≡ r.id
  pub kind : r'.kind ≡ r.kind
  pub version : r'.version ≡ r.version
  pub input_json : r'.input_json ≡ r.input_json
  pub terminal : Workflow.is_terminal r.status ≡ true → r' ≡ r

abbrev pub is_closed : ActivityStatus → Bool
is_closed s = Activity.same s ActivityStatus.succeeded || Activity.same s ActivityStatus.cancelled

-- A recovery cancels a dead-lettered activity; nothing else leaves `dead_lettered`.
abbrev pub change_reaches : ActivityStatus → ActivityStatus → Bool
change_reaches s t =
    if is_closed s
    then Activity.same s t
    else if Activity.same s ActivityStatus.dead_lettered
    then Activity.same t ActivityStatus.dead_lettered || Activity.same t ActivityStatus.cancelled
    else true

pub record ActivityChange (r r' : ActivityRow) : Type 0 where
  pub id : r'.id ≡ r.id
  pub workflow_id : r'.workflow_id ≡ r.workflow_id
  pub payload_json : r'.payload_json ≡ r.payload_json
  pub reaches : change_reaches r.status r'.status ≡ true
  pub closed : is_closed r.status ≡ true → r' ≡ r

pub WorkflowChange-refl : (r : WorkflowRow) → WorkflowChange r r
WorkflowChange-refl r = record {
  id = refl;
  kind = refl;
  version = refl;
  input_json = refl;
  terminal = λ h. refl;
}

pub WorkflowChange-trans :
    (x y z : WorkflowRow) → WorkflowChange x y → WorkflowChange y z → WorkflowChange x z
WorkflowChange-trans x y z p q = record {
  id = q.id ∙ p.id;
  kind = q.kind ∙ p.kind;
  version = q.version ∙ p.version;
  input_json = q.input_json ∙ p.input_json;
  terminal = λ h.
      q.terminal
        (subst (λ (r : WorkflowRow). Workflow.is_terminal r.status ≡ true) (sym (p.terminal h)) h)
      ∙ p.terminal h;
}

WorkflowStep-WorkflowChange : (r r' : WorkflowRow) → WorkflowStep r r' → WorkflowChange r r'
WorkflowStep-WorkflowChange r r' s = record {
  id = s.id;
  kind = s.kind;
  version = s.version;
  input_json = s.input_json;
  terminal = λ h. s.settled (ground arith);
}

change_reaches_refl : (s : ActivityStatus) → change_reaches s s ≡ true
change_reaches_refl ActivityStatus.pending = refl
change_reaches_refl _ = refl

change_reaches_trans :
    (a b c : ActivityStatus)
    → change_reaches a b ≡ true
    → change_reaches b c ≡ true
    → change_reaches a c ≡ true
change_reaches_trans a b c p q = ground arith

step_reaches : (a b : ActivityStatus) → activity_reaches a b ≡ true → change_reaches a b ≡ true
step_reaches a b p = ground arith

pub ActivityChange-refl : (r : ActivityRow) → ActivityChange r r
ActivityChange-refl r = record {
  id = refl;
  workflow_id = refl;
  payload_json = refl;
  reaches = change_reaches_refl r.status;
  closed = λ h. refl;
}

pub ActivityChange-trans :
    (x y z : ActivityRow) → ActivityChange x y → ActivityChange y z → ActivityChange x z
ActivityChange-trans x y z p q = record {
  id = q.id ∙ p.id;
  workflow_id = q.workflow_id ∙ p.workflow_id;
  payload_json = q.payload_json ∙ p.payload_json;
  reaches = change_reaches_trans x.status y.status z.status p.reaches q.reaches;
  closed = λ h.
      q.closed (subst (λ (r : ActivityRow). is_closed r.status ≡ true) (sym (p.closed h)) h)
      ∙ p.closed h;
}

ActivityStep-ActivityChange : (r r' : ActivityRow) → ActivityStep r r' → ActivityChange r r'
ActivityStep-ActivityChange r r' s = record {
  id = s.id;
  workflow_id = s.workflow_id;
  payload_json = s.payload_json;
  reaches = step_reaches r.status r'.status s.reaches;
  closed = λ h. s.settled (ground arith);
}

-- `db` is sound, and its rows have changed from those of `old` only as the rules allow.
pub record Changes (old db : Db) : Type 0 where
  pub workflows : Grows WorkflowChange old.workflows db.workflows
  pub activities : Grows ActivityChange old.activities db.activities
  pub attempts : Grows AttemptStep old.attempts db.attempts
  pub approvals : Grows ApprovalStep old.approvals db.approvals
  pub events : Grows EventStep old.events db.events
  pub workflows_ok : All WorkflowOk db.workflows
  pub activities_ok : All ActivityOk db.activities

pub Changes-refl :
    (db : Db) → All WorkflowOk db.workflows × All ActivityOk db.activities → Changes db db
Changes-refl db sound = record {
  workflows = Grows-refl WorkflowChange WorkflowChange-refl db.workflows;
  activities = Grows-refl ActivityChange ActivityChange-refl db.activities;
  attempts = Grows-refl AttemptStep AttemptStep-refl db.attempts;
  approvals = Grows-refl ApprovalStep ApprovalStep-refl db.approvals;
  events = Grows-refl EventStep (λ e. refl) db.events;
  workflows_ok = sound.0;
  activities_ok = sound.1;
}

-- The engine's promise is the stronger one.
pub Changes-Follows : (old mid db : Db) → Changes old mid → Follows mid db → Changes old db
Changes-Follows old mid db h f = record {
  workflows =
      Grows-trans WorkflowChange WorkflowChange-trans h.workflows
        (Grows-map WorkflowStep WorkflowChange WorkflowStep-WorkflowChange f.workflows);
  activities =
      Grows-trans ActivityChange ActivityChange-trans h.activities
        (Grows-map ActivityStep ActivityChange ActivityStep-ActivityChange f.activities);
  attempts = Grows-trans AttemptStep AttemptStep-trans h.attempts f.attempts;
  approvals = Grows-trans ApprovalStep ApprovalStep-trans h.approvals f.approvals;
  events = Grows-trans EventStep (λ x y z p q. q ∙ p) h.events f.events;
  workflows_ok = f.workflows_ok;
  activities_ok = f.activities_ok;
}
