-- ===== src/Coordinator/Child.antt =====
-- The commit of a transition that runs a child workflow (`commit_child`, `set_child_wait` and
-- `is_caller_or_ancestor` in durable-workflows/src/runtime/coordinator.rs, `insert_child` in store.rs),
-- and the commit of any transition (`commit_on_connection`).
pub mod Ancestors
pub mod Acyclic
pub mod Fence
pub mod Sound
use durable_workflows.Base.{
  ℕ, zero, suc, Bool, true, false, not, Option, none, some, List, String, if◌then◌else◌, length,
}
use durable_workflows.Base.Int.{ℤ, ◌==ℤ◌}
use durable_workflows.Base.Table.{first_where}
use durable_workflows.Base.Outcome.{
  Result, ok, err, database, definition_mismatch, invalid_definition, invalid_state,
}
use durable_workflows.Rows.{WorkflowRow, WorkflowEventRow}
use durable_workflows.Status.Workflow.{WorkflowStatus}
use durable_workflows.Wait.{Wait}
use durable_workflows.Tx.{
  Db, Tx, pure, lift, reads, require, or_fail, update_workflows, ensure_fenced, ◌>>=◌, ◌>>◌,
}
use durable_workflows.Events.{Env, append_history}
use durable_workflows.Parents.{
  ChildOutcome, output, failure, wake_waiting_parents_on_child_terminal,
}
use durable_workflows.Store.{StartOptions, PreparedStart, StartLineage, validate_key}
use durable_workflows.Store.Start.{
  StartedInsert, started_row, insert_started, find_by_deduplication_key,
}
use durable_workflows.Store.Generations.{lock_newest_generation}
use durable_workflows.Coordinator.{CoordinatorConfig, ClaimedRow, ActivityCommand}
use durable_workflows.Coordinator.Commit.{
  fence, waiting_row, command_of, commit_continue, commit_complete, commit_sleep, commit_approval,
  commit_activity,
}

pub record ChildWorkflowCommand : Type 0 where
  pub kind : String
  pub version : ℤ
  pub input_json : String
  pub state_json : String
  pub deduplication_key : Option String

pub data ChildStart : Type 0 where
  inserted : ℤ → ChildStart
  existing : WorkflowRow → ChildStart

abbrev pub child_id : ChildStart → ℤ
child_id (ChildStart.inserted id) = id
child_id (ChildStart.existing row) = row.id

abbrev or_else {ℓ} : {A : Type ℓ} → Option A → A → A
or_else none a = a
or_else (some b) a = b

-- The key of the command, or the one that the engine makes for it.
abbrev pub child_key_of : Env → ClaimedRow → ChildWorkflowCommand → String
child_key_of env claim child =
    or_else child.deduplication_key (env.child_key claim.row.id (command_of claim))

abbrev pub root_of_child : ClaimedRow → ℤ
root_of_child claim = or_else claim.row.root_workflow_id claim.row.id

abbrev prepared_child : ChildWorkflowCommand → PreparedStart
prepared_child child = record {
  kind = child.kind;
  version = child.version;
  input_json = child.input_json;
  state_json = child.state_json;
}

abbrev no_options : StartOptions
no_options = record { available_at = none; schedule_run_id = none; lineage = StartLineage.fresh }

-- The row of `insert_new_child`: that of a start, with the links to the parent.
abbrev pub child_row : Env → ChildWorkflowCommand → String → ℤ → ℤ → ℤ → WorkflowRow
child_row env child key parent command root =
    record (started_row env (prepared_child child) no_options) {
      deduplication_key = some key;
      root_workflow_id = some root;
      parent_workflow_id = some parent;
      parent_command_sequence = some command;
    }

unfoldable pub lock_workflow_by_id : ℤ → Tx WorkflowRow
lock_workflow_by_id id = do
  found ← reads (λ db. first_where (λ r. r.id ==ℤ id) db.workflows)
  or_fail found database

keyed_child : Env → WorkflowRow → Option WorkflowRow → Tx StartedInsert
unfolding lock_workflow_by_id insert_started
keyed_child env row (some keyed) = do
  locked ← lock_workflow_by_id keyed.id
  pure (StartedInsert.existing locked)
keyed_child env row none = insert_started env row

-- An existing key stands for its newest generation, which must have the version asked for.
resolve_child : ChildWorkflowCommand → StartedInsert → Tx ChildStart
resolve_child child (StartedInsert.inserted id) = pure (ChildStart.inserted id)
resolve_child child (StartedInsert.existing keyed) = do
  newest ← reads (λ db. lock_newest_generation db.workflows keyed)
  row ← or_fail newest database
  require (row.version ==ℤ child.version) definition_mismatch
  pure (ChildStart.existing row)

unfoldable pub insert_child : Env → ChildWorkflowCommand → String → ℤ → ℤ → ℤ → Tx ChildStart
unfolding keyed_child resolve_child validate_key find_by_deduplication_key
insert_child env child key parent command root = do
  lift (validate_key key)
  found ← find_by_deduplication_key child.kind key
  keyed ← keyed_child env (child_row env child key parent command root) found
  resolve_child child keyed

-- The link that the walk follows from a row: its parent, or the row it was restarted from.
abbrev pub link_of : WorkflowRow → Option ℤ
link_of row = elim row.parent_workflow_id [
  | none ↦ row.restarted_from_workflow_id
  | some parent ↦ some parent
]

abbrev found_link : Option WorkflowRow → Result (Option ℤ)
found_link none = err database
found_link (some row) = ok (link_of row)

abbrev pub link_at : List WorkflowRow → WorkflowRow → ℤ → Result (Option ℤ)
link_at workflows caller id =
    if id ==ℤ caller.id
    then ok (link_of caller)
    else found_link (first_where (λ r. r.id ==ℤ id) workflows)

-- The `while` loop; `none` means that the fuel ran out.
unfoldable pub walk : List WorkflowRow → WorkflowRow → ℤ → ℕ → Option ℤ → Option (Result Bool)
walk workflows caller target zero current = none
walk workflows caller target (suc fuel) none = some (ok false)
walk workflows caller target (suc fuel) (some id) = elim (id ==ℤ target) [
  | true ↦ some (ok true)
  | false ↦ elim (link_at workflows caller id) [
    | err e ↦ some (err e)
    | ok next ↦ walk workflows caller target fuel next
  ]
]

-- The caller's row, each row of the table, and two rounds more.
unfoldable pub is_caller_or_ancestor : List WorkflowRow → WorkflowRow → ℤ → Option (Result Bool)
unfolding walk
is_caller_or_ancestor workflows caller target =
    walk workflows caller target (suc (suc (suc (length workflows)))) (some caller.id)

unfoldable pub refuse_ancestor : ClaimedRow → ChildStart → Tx Unit
refuse_ancestor claim (ChildStart.inserted id) = pure tt
refuse_ancestor claim (ChildStart.existing row) = do
  walked ← reads (λ db. is_caller_or_ancestor db.workflows claim.row row.id)
  answer ← or_fail walked database
  ancestor ← lift answer
  require (not ancestor) invalid_definition

unfoldable pub set_child_wait : Env → ClaimedRow → ChildStart → String → ℤ → Tx Unit
set_child_wait env claim child state_json delivered = do
  changed ← update_workflows (fence claim) (
      waiting_row claim WorkflowStatus.waiting_child (Wait.child (child_id child)) state_json
        (command_of claim) delivered env.now)
  ensure_fenced changed

-- The outcome of a child that has ended already.
abbrev pub terminal_outcome : WorkflowStatus → WorkflowRow → Option ChildOutcome
terminal_outcome WorkflowStatus.succeeded row = some (output (or_else row.result_json "null"))
terminal_outcome WorkflowStatus.failed row = some (
    failure (or_else row.error_category "failed")
      (or_else row.error_message "child workflow failed"))
terminal_outcome WorkflowStatus.cancelled row =
    some (failure "child_cancelled" "child workflow was cancelled")
terminal_outcome status row = none

deliver_outcome : Env → WorkflowRow → Option ChildOutcome → Tx Unit
deliver_outcome env row none = pure tt
deliver_outcome env row (some outcome) =
    wake_waiting_parents_on_child_terminal env row outcome env.now

unfoldable pub deliver_existing : Env → ChildStart → Tx Unit
unfolding deliver_outcome
deliver_existing env (ChildStart.inserted id) = pure tt
deliver_existing env (ChildStart.existing row) =
    deliver_outcome env row (terminal_outcome row.status row)

unfoldable pub commit_child : Env → ClaimedRow → ℤ → String → ChildWorkflowCommand → Tx Unit
commit_child env claim delivered state_json child = do
  outcome ←
      insert_child env child (child_key_of env claim child) claim.row.id (command_of claim)
        (root_of_child claim)
  refuse_ancestor claim outcome
  set_child_wait env claim outcome state_json delivered
  append_history claim.row.id "child_workflow_scheduled" env.now
  deliver_existing env outcome

-- `StoredTransition` (durable-workflows/src/registry.rs).
pub data StoredTransition : Type 0 where
  run_activity : (state_json : String) → ActivityCommand → StoredTransition
  run_child : (state_json : String) → ChildWorkflowCommand → StoredTransition
  sleep_until : (state_json : String) (wake_at_millis : ℤ) → StoredTransition
  wait_for_approval :
      (state_json approval_json : String) (expires_at_millis : Option ℤ) → StoredTransition
  continue : (state_json : String) → StoredTransition
  complete : (output_json : String) → StoredTransition

unfoldable pub commit_transition :
    Env → CoordinatorConfig → ClaimedRow → ℤ → StoredTransition → Tx Unit
commit_transition env config claim d (run_activity s activity) =
    commit_activity env claim d s activity
commit_transition env config claim d (run_child s child) = commit_child env claim d s child
commit_transition env config claim d (sleep_until s at) = commit_sleep env claim d s at
commit_transition env config claim d (wait_for_approval s a at) = commit_approval env claim d s a at
commit_transition env config claim d (StoredTransition.continue s) =
    commit_continue env config claim d s
commit_transition env config claim d (complete o) = commit_complete env claim d o

-- Only a deliverable event is consumed.
unfoldable pub commit_on_connection :
    Env → CoordinatorConfig → ClaimedRow → WorkflowEventRow → StoredTransition → Tx Unit
unfolding commit_transition
commit_on_connection env config claim event transition = do
  delivered ← or_fail event.delivery_sequence invalid_state
  commit_transition env config claim delivered transition
