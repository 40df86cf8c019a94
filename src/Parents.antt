-- ===== src/Parents.antt =====
-- Delivery of a terminal child outcome to the parents that wait on the child
-- (durable-workflows/src/persistence/workflows.rs).
pub mod Sound
pub mod Woken
use durable_workflows.Base.{
  ℕ, Bool, true, false, not, ◌&&◌, ◌||◌, Option, none, some, List, [], ◌∷◌, String, if◌then◌else◌,
}
use durable_workflows.Base.Int.{ℤ, ◌==ℤ◌}
use durable_workflows.Base.Table.{select_where}
use durable_workflows.Base.Outcome
use durable_workflows.Base.Outcome.{Result, ok, invalid_state}
use durable_workflows.Clock.{DbMillis}
use durable_workflows.Status.Workflow
use durable_workflows.Status.Workflow.{WorkflowStatus}
use durable_workflows.Status.Waits
use durable_workflows.Status.Waits.{WaitKind}
use durable_workflows.Wait.{Wait, u32_try_from}
use durable_workflows.Wait
use durable_workflows.Rows.{WorkflowRow}
use durable_workflows.Tx.{
  Tx, pure, lift, reads, or_fail, update_workflows, ensure_fenced, is_int, eq_int, checked_succ,
  ◌>>=◌, ◌>>◌,
}
use durable_workflows.Events.{
  WorkflowEvent, child_succeeded, child_failed, Env, new_child_result, append_system_event,
}

-- `Result<String, (String, String)>`: the child's output, or its error's category and message.
pub data ChildOutcome : Type 0 where
  output : (output_json : String) → ChildOutcome
  failure : (category message : String) → ChildOutcome

-- `wait()`: the row's two columns through the one parser.
abbrev pub row_wait : WorkflowRow → Result (Option Wait)
row_wait row = Wait.parse row.wait_kind row.wait_reference_id

abbrev pub is_kind : Option WaitKind → WaitKind → Bool
is_kind none k = false
is_kind (some j) k = Waits.same j k

-- SQL `wait_kind = value` where the value may be NULL.
abbrev pub eq_kind : Option WaitKind → Option WaitKind → Bool
eq_kind x none = false
eq_kind x (some k) = is_kind x k

abbrev pub waits_on_child : Option Wait → ℤ → Bool
waits_on_child (some (Wait.child id)) child = id ==ℤ child
waits_on_child w child = false

-- The status and wait columns of a woken workflow: a paused one stays paused.
abbrev pub woken : WorkflowStatus → WorkflowStatus
woken status =
    if Workflow.same status WorkflowStatus.paused
    then WorkflowStatus.paused
    else WorkflowStatus.ready

-- The fenced update of `wake_loaded_parent_on_child_terminal` and of `clear_wait`.
unfoldable pub clear_wait : WorkflowRow → DbMillis → Tx Unit
clear_wait workflow now = do
  changed ←
      update_workflows
        (λ r.
          r.id ==ℤ workflow.id
          && Workflow.same r.status workflow.status
          && eq_kind r.wait_kind workflow.wait_kind
          && eq_int r.wait_reference_id workflow.wait_reference_id)
        (λ r. record r {
          status = woken workflow.status;
          wait_kind = none;
          wait_reference_id = none;
          available_at = now;
          updated_at = now;
        })
  ensure_fenced changed

unfoldable pub child_event : ℕ → String → ℤ → ChildOutcome → Result (String × WorkflowEvent)
child_event command_sequence kind version (output output_json) =
    Outcome.◌>>=◌ (new_child_result kind version output_json)
      (λ result. ok ("child_succeeded", child_succeeded command_sequence result))
child_event command_sequence kind version (failure category message) =
    ok ("child_failed", child_failed command_sequence kind version category message)

deliver_to_parent : Env → WorkflowRow → WorkflowRow → ChildOutcome → DbMillis → Tx Unit
unfolding child_event clear_wait
deliver_to_parent env parent child outcome now = do
  command_sequence ← lift (u32_try_from parent.command_sequence)
  event ← lift (child_event command_sequence child.kind child.version outcome)
  delivery_sequence ← or_fail (checked_succ parent.delivered_event_sequence) invalid_state
  append_system_event parent.id (some delivery_sequence) event.0 (some (env.encode_event event.1))
      none now
  clear_wait parent now

deliver_if_waiting :
    Env → WorkflowRow → WorkflowRow → ChildOutcome → DbMillis → Option Wait → Tx Unit
unfolding deliver_to_parent
deliver_if_waiting env parent child outcome now wait =
    if not (waits_on_child wait child.id)
    then pure tt
    else deliver_to_parent env parent child outcome now

-- A parent that no longer waits on this child is skipped.
unfoldable pub wake_loaded_parent_on_child_terminal :
    Env → WorkflowRow → WorkflowRow → ChildOutcome → DbMillis → Tx Unit
unfolding deliver_if_waiting
wake_loaded_parent_on_child_terminal env parent child outcome now =
    if not (Workflow.awaits_child parent.status)
    then pure tt
    else lift (row_wait parent) >>= deliver_if_waiting env parent child outcome now

unfoldable pub wake_parents :
    Env → List WorkflowRow → WorkflowRow → ChildOutcome → DbMillis → Tx Unit
unfolding wake_loaded_parent_on_child_terminal
wake_parents env [] child outcome now = pure tt
wake_parents env (parent ∷ parents) child outcome now =
    wake_loaded_parent_on_child_terminal env parent child outcome now
    >> wake_parents env parents child outcome now

abbrev pub awaits : ℤ → WorkflowRow → Bool
awaits child r =
    is_kind r.wait_kind WaitKind.child
    && is_int r.wait_reference_id child
    && Workflow.set_contains Workflow.child_waiters r.status

unfoldable pub wake_waiting_parents_on_child_terminal :
    Env → WorkflowRow → ChildOutcome → DbMillis → Tx Unit
unfolding wake_parents
wake_waiting_parents_on_child_terminal env child outcome now = do
  parents ← reads (λ db. select_where (awaits child.id) db.workflows)
  wake_parents env parents child outcome now
