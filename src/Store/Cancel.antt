-- ===== src/Store/Cancel.antt =====
-- The cancellation of a workflow with its activities and approvals, and of the children that it owns
-- (`cancel_with_conn` to `cancel_approvals` of durable-workflows/src/store.rs).
pub mod Sound
use durable_workflows.Base.{
  ℕ, zero, suc, Bool, true, false, not, ◌&&◌, ◌||◌, ◌==◌, ◌++◌, ltb, if◌then◌else◌, Option, none,
  some, List, [], ◌∷◌, map, String, length,
}
use durable_workflows.Base.Int.{ℤ, ◌==ℤ◌, ltb_ℤ}
use durable_workflows.Base.Table.{first_where, select_where, order_by}
use durable_workflows.Base.Outcome.{invalid_state, invalid_definition, not_found, database}
use durable_workflows.Clock.{DbMillis}
use durable_workflows.Status.Workflow
use durable_workflows.Status.Workflow.{WorkflowStatus}
use durable_workflows.Status.Activity
use durable_workflows.Status.Activity.{ActivityStatus}
use durable_workflows.Status.Approval
use durable_workflows.Status.Approval.{ApprovalStatus}
use durable_workflows.Status.Attempt
use durable_workflows.Status.Attempt.{AttemptOutcome}
use durable_workflows.Text.{len, truncate_utf8}
use durable_workflows.Rows.{WorkflowRow, ActivityRow, ApprovalRow}
use durable_workflows.Tx.{
  Tx, pure, fail, reads, require, or_fail, update_workflows, update_activities, update_approvals,
  ensure_fenced, append_event, next_event_sequence, is_int, is_text, is_some, ◌>>=◌, ◌>>◌,
}
use durable_workflows.Events.{Env, max_error_reason_bytes}
use durable_workflows.Parents.{failure, wake_waiting_parents_on_child_terminal}
use durable_workflows.Store.Generations.{lock_successor}

-- The handler of a running activity may still work: its row keeps the lease and the open attempt.
abbrev pub revoked_row : String → String → DbMillis → ActivityRow → ActivityRow
revoked_row category reason now r = record r {
  status = ActivityStatus.cancelling;
  last_error_category = some category;
  last_error_message = some reason;
  updated_at = now;
}

abbrev pub cancelled_row : DbMillis → ActivityRow → ActivityRow
cancelled_row now r = record r {
  status = ActivityStatus.cancelled;
  lease_owner = none;
  lease_token = none;
  lease_expires_at = none;
  updated_at = now;
  completed_at = some now;
}

-- The row as it was read, under the lease that it had.
abbrev pub held_as : ActivityRow → String → ActivityRow → Bool
held_as activity token r =
    r.id ==ℤ activity.id
    && Activity.same r.status activity.status
    && r.attempt_count ==ℤ activity.attempt_count
    && is_text r.lease_token token

abbrev pub in_status : ActivityRow → ActivityStatus → ActivityRow → Bool
in_status activity status r = r.id ==ℤ activity.id && Activity.same r.status status

revoke : ActivityRow → String → AttemptOutcome → DbMillis → Tx Unit
revoke activity reason outcome now = do
  token ← or_fail activity.lease_token invalid_state
  changed ←
      update_activities (held_as activity token) (revoked_row (Attempt.as_str outcome) reason now)
  ensure_fenced changed

withdraw : ActivityRow → DbMillis → Tx Unit
withdraw activity now = do
  changed ← update_activities (in_status activity ActivityStatus.pending) (cancelled_row now)
  ensure_fenced changed

cancel_as : ActivityStatus → ActivityRow → String → AttemptOutcome → DbMillis → Tx Unit
unfolding revoke withdraw
cancel_as ActivityStatus.running activity reason outcome now = revoke activity reason outcome now
cancel_as ActivityStatus.cancelling activity reason outcome now = revoke activity reason outcome now
cancel_as ActivityStatus.pending activity reason outcome now = withdraw activity now
cancel_as status activity reason outcome now = fail invalid_state

cancel_each : List ActivityRow → String → AttemptOutcome → DbMillis → Tx Unit
unfolding cancel_as
cancel_each [] reason outcome now = pure tt
cancel_each (activity ∷ activities) reason outcome now =
    cancel_as activity.status activity reason outcome now
    >> cancel_each activities reason outcome now

abbrev pub live_activity : ℤ → ActivityRow → Bool
live_activity workflow_id r =
    r.workflow_id ==ℤ workflow_id && Activity.set_contains Activity.non_terminal r.status

unfoldable pub cancel_activities : ℤ → String → AttemptOutcome → DbMillis → Tx Unit
unfolding cancel_each
cancel_activities workflow_id reason outcome now = do
  activities ← reads (λ db. select_where (live_activity workflow_id) db.activities)
  cancel_each activities reason outcome now

abbrev pub cancelled_approval : String → DbMillis → ApprovalRow → ApprovalRow
cancelled_approval reason now a = record a {
  status = ApprovalStatus.cancelled;
  operator_reason = some reason;
  resolved_at = some now;
}

cancel_each_approval : List ApprovalRow → String → DbMillis → Tx Unit
cancel_each_approval [] reason now = pure tt
cancel_each_approval (approval ∷ approvals) reason now = do
  changed ←
      update_approvals (λ a. a.id ==ℤ approval.id && Approval.same a.status ApprovalStatus.pending)
        (cancelled_approval reason now)
  ensure_fenced changed
  cancel_each_approval approvals reason now

unfoldable pub cancel_approvals : ℤ → String → DbMillis → Tx Unit
unfolding cancel_each_approval
cancel_approvals workflow_id reason now = do
  approvals ← reads (λ db.
      select_where
        (λ a. a.workflow_id ==ℤ workflow_id && Approval.same a.status ApprovalStatus.pending)
        db.approvals)
  cancel_each_approval approvals reason now

abbrev pub cancelled_workflow : DbMillis → WorkflowRow → WorkflowRow
cancelled_workflow now w = record w {
  status = WorkflowStatus.cancelled;
  wait_kind = none;
  wait_reference_id = none;
  lease_owner = none;
  lease_token = none;
  lease_expires_at = none;
  updated_at = now;
  completed_at = some now;
}

-- The row as it was read.
abbrev pub unchanged : WorkflowRow → WorkflowRow → Bool
unchanged workflow r = r.id ==ℤ workflow.id && Workflow.same r.status workflow.status

abbrev outcome_for : Option String → AttemptOutcome
outcome_for operator_id =
    if is_some operator_id
    then AttemptOutcome.operator_cancelled
    else AttemptOutcome.application_cancelled

unfoldable pub cancel_one_workflow : Env → WorkflowRow → String → Option String → DbMillis → Tx Unit
unfolding cancel_activities cancel_approvals
cancel_one_workflow env workflow reason operator_id now = do
  cancel_activities workflow.id reason (outcome_for operator_id) now
  cancel_approvals workflow.id reason now
  changed ← update_workflows (unchanged workflow) (cancelled_workflow now)
  ensure_fenced changed
  sequence ← next_event_sequence workflow.id
  append_event (record {
    workflow_id = workflow.id;
    sequence = sequence;
    delivery_sequence = none;
    event_type = "workflow_cancelled";
    metadata_json = none;
    actor_type = some (if is_some operator_id then "operator" else "system");
    actor_id = operator_id;
    reason = some reason;
    created_at = now;
  })
  wake_waiting_parents_on_child_terminal env workflow (failure "child_cancelled" reason) now

-- The children under the key that the engine made for the command, in the order of their ids.
abbrev owned_key : Env → ℤ → Option ℤ → WorkflowRow → Bool
owned_key env parent none r = false
owned_key env parent (some command) r = is_text r.deduplication_key (env.child_key parent command)

abbrev pub is_owned : Env → ℤ → WorkflowRow → Bool
is_owned env parent r =
    is_int r.parent_workflow_id parent && owned_key env parent r.parent_command_sequence r

abbrev id_first : WorkflowRow → WorkflowRow → Bool
id_first a b = ltb_ℤ a.id b.id

unfoldable pub owned_children : Env → ℤ → List WorkflowRow → List ℤ
owned_children env parent workflows =
    map (λ r. r.id) (order_by id_first (select_where (is_owned env parent) workflows))

-- A live generation is cancelled and joins the work list, whose last entry is taken first.
cancel_live : Env → WorkflowRow → String → Option String → DbMillis → List ℤ → Tx (List ℤ)
cancel_live env row reason operator_id now ids =
    if Workflow.is_terminal row.status
    then pure ids
    else cancel_one_workflow env row reason operator_id now >> pure (row.id ∷ ids)

-- The `loop` over the generations of a child.
cancel_generations :
    Env → ℕ → Option WorkflowRow → String → Option String → DbMillis → List ℤ → Tx (List ℤ)
unfolding cancel_live
cancel_generations env zero row reason operator_id now ids = fail database
cancel_generations env (suc fuel) none reason operator_id now ids = pure ids
cancel_generations env (suc fuel) (some row) reason operator_id now ids = do
  ids' ← cancel_live env row reason operator_id now ids
  successor ← reads (λ db. lock_successor db.workflows row)
  cancel_generations env fuel successor reason operator_id now ids'

cancel_children : Env → List ℤ → String → Option String → DbMillis → List ℤ → Tx (List ℤ)
unfolding cancel_generations
cancel_children env [] reason operator_id now ids = pure ids
cancel_children env (child ∷ children) reason operator_id now ids = do
  found ← reads (λ db. first_where (λ r. r.id ==ℤ child) db.workflows)
  row ← or_fail found database
  rows ← reads (λ db. length db.workflows)
  ids' ← cancel_generations env (suc (suc rows)) (some row) reason operator_id now ids
  cancel_children env children reason operator_id now ids'

-- The `while` loop over the work list. An entry is a workflow that was cancelled in this transaction,
-- so no workflow is entered twice.
descend : Env → ℕ → List (ℤ × String) → Option String → DbMillis → Tx Unit
unfolding cancel_children
descend env zero parents operator_id now = fail database
descend env (suc fuel) [] operator_id now = pure tt
descend env (suc fuel) ((parent, parent_reason) ∷ parents) operator_id now = do
  let reason = truncate_utf8 (env.cascade_reason parent parent_reason) max_error_reason_bytes
  children ← reads (λ db. owned_children env parent db.workflows)
  ids ← cancel_children env children reason operator_id now []
  descend env fuel (map (λ (id : ℤ). (id, reason)) ids ++ parents) operator_id now

unfoldable pub cancel_owned_descendants :
    Env → WorkflowRow → String → Option String → DbMillis → Tx Unit
unfolding descend
cancel_owned_descendants env parent reason operator_id now = do
  rows ← reads (λ db. length db.workflows)
  descend env (suc (suc rows)) ((parent.id, reason) ∷ []) operator_id now

unfoldable pub cancel_locked_workflow :
    Env → WorkflowRow → String → Option String → DbMillis → Tx Unit
cancel_locked_workflow env workflow reason operator_id now = do
  cancel_one_workflow env workflow reason operator_id now
  cancel_owned_descendants env workflow reason operator_id now

unfoldable pub cancel_if_live : Env → WorkflowRow → String → Tx Unit
unfolding cancel_locked_workflow
cancel_if_live env workflow reason =
    if Workflow.is_terminal workflow.status
    then pure tt
    else cancel_locked_workflow env workflow reason none env.now

-- `reason.is_empty() || reason.len() > MAX_ERROR_REASON_BYTES`, the other way round.
abbrev valid_reason : String → Bool
valid_reason reason = not (len reason == 0 || ltb max_error_reason_bytes (len reason))

-- A terminal workflow is left as it is.
unfoldable pub cancel_with_conn : Env → ℤ → String → Tx Unit
unfolding cancel_if_live len
cancel_with_conn env workflow_id reason = do
  require (valid_reason (env.trim reason)) invalid_definition
  found ← reads (λ db. first_where (λ r. r.id ==ℤ workflow_id) db.workflows)
  workflow ← or_fail found not_found
  cancel_if_live env workflow (env.trim reason)
